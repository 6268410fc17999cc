-- ===== src/Examples/Trees.antt =====
-- Small hash trees.
use vorder.Base.{◌+◌, ◌<◌, ◌≡◌, true, false, some, [], ◌∷◌, ◌++◌, map, arith}
use vorder.Merkel.{Tree, new_tree, build_merkle_tree, get_root, clear, add_leaf_node}
use vorder.Merkel.Root.{values, root_of, build_merkle_tree-root}
use vorder.Merkel.Leaves.{IsTree, add_leaf_node-values, add_leaves, build_merkle_tree-add_leaves}
use vorder.Examples.Data.{sum}

abbrev three : Tree
unfolding add_leaves
three = add_leaves sum ((1 ∷ []) ∷ (2 ∷ []) ∷ (3 ∷ []) ∷ []) new_tree

build_merkle_tree-root_example :
    (three.cur_num ≡ 0 → (build_merkle_tree sum three).1 ≡ false)
    × (0 < three.cur_num
        → ((build_merkle_tree sum three).1 ≡ true)
          × (root_of sum three.cur_num (values 0 three.cur_num three.nodes)
              ≡ some (get_root (build_merkle_tree sum three).0)))
build_merkle_tree-root_example = build_merkle_tree-root sum three

add_leaf_node-values_example :
    (values 0
        (add_leaf_node sum (5 ∷ []) new_tree).cur_num
        (add_leaf_node sum (5 ∷ []) new_tree).nodes
      ≡ values 0 new_tree.cur_num new_tree.nodes ++ sum (5 ∷ []) ∷ [])
    × ((add_leaf_node sum (5 ∷ []) new_tree).cur_num ≡ new_tree.cur_num + 1)
    × IsTree (add_leaf_node sum (5 ∷ []) new_tree)
unfolding new_tree
add_leaf_node-values_example = add_leaf_node-values sum (5 ∷ []) new_tree (omega arith)

build_merkle_tree-add_leaves_example :
    let d = add_leaves sum ((1 ∷ []) ∷ (2 ∷ []) ∷ []) (clear three) in
    ((build_merkle_tree sum d).1 ≡ true)
    × (root_of sum 2 (map sum ((1 ∷ []) ∷ (2 ∷ []) ∷ []))
        ≡ some (get_root (build_merkle_tree sum d).0))
build_merkle_tree-add_leaves_example =
    build_merkle_tree-add_leaves sum (1 ∷ []) ((2 ∷ []) ∷ []) three
