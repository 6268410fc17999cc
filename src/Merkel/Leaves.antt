-- ===== src/Merkel/Leaves.antt =====
-- AddLeafNode, and the tree over a list of leaves.
use vorder.Base.{
  ℕ, zero, suc, ◌+◌, ◌≤◌, ◌<◌, ◌≡◌, refl, sym, ap, ◌∙◌, true, List, [], ◌∷◌, ◌++◌, leb,
  if◌then◌else◌, length, arith, some, map,
}
use mathlib.Core.List.{append_assoc, append-nil}
use vorder.Merkel.{
  Node, Tree, store, add_leaf_node, build_merkle_tree, get_root, incease_node, clear,
}
use vorder.Merkel.Root.{values, root_of, build_merkle_tree-root}

-- The leaves added so far stand in the allocated part of the array.
abbrev pub IsTree : Tree → Type 0
IsTree t = t.cur_num ≤ t.alloc_num

values-end : (i n : ℕ) (f : ℕ → Node) → values i (suc n) f ≡ values i n f ++ (f (i + n)).value ∷ []
unfolding values
values-end i zero f = let at : i + 0 ≡ i = omega arith in rw at
values-end i (suc n) f =
    let at : i + suc n ≡ i + 1 + n = omega arith in
    rw at (ap (◌∷◌ (f i).value) (values-end (i + 1) n f))

values_below :
    (i n : ℕ) (f g : ℕ → Node)
    → ((j : ℕ) → j < i + n → (f j).value ≡ (g j).value)
    → values i n f ≡ values i n g
unfolding values
values_below i zero f g h = refl
values_below i (suc n) f g h =
    ground (arith, h i (omega arith), values_below (i + 1) n f g (λ j k. h j (omega arith)))

module _ (digest : List ℕ → List ℕ) where
  -- AddLeafNode appends the hash of the data to the leaves; the leaves stay inside the array, as they
  -- were before.
  pub add_leaf_node-values :
      (bytes : List ℕ) (t : Tree)
      → IsTree t
      → (values 0 (add_leaf_node digest bytes t).cur_num (add_leaf_node digest bytes t).nodes
          ≡ values 0 t.cur_num t.nodes ++ digest bytes ∷ [])
        × ((add_leaf_node digest bytes t).cur_num ≡ t.cur_num + 1)
        × IsTree (add_leaf_node digest bytes t)
  unfolding add_leaf_node store incease_node
  add_leaf_node-values bytes t h =
      let u : Tree = if leb t.alloc_num t.cur_num then incease_node t else t in
      let cur : u.cur_num ≡ t.cur_num = ground arith in
      let made : ℕ → Node = (add_leaf_node digest bytes t).nodes in
      let one : t.cur_num + 1 ≡ suc t.cur_num = omega arith in
      let below = values_below 0 t.cur_num made t.nodes (λ j k. ground arith) in
      let last : (made t.cur_num).value ≡ digest bytes = ground arith in
      let at : 0 + t.cur_num ≡ t.cur_num = omega arith in
      let n : (add_leaf_node digest bytes t).cur_num ≡ suc t.cur_num = ground arith in
      (rw n (values-end 0 t.cur_num made ∙ rw (at, last, below)), ground arith, ground arith)

  unfoldable pub add_leaves : List (List ℕ) → Tree → Tree
  add_leaves [] t = t
  add_leaves (b ∷ bs) t = add_leaves bs (add_leaf_node digest b t)

  pub add_leaves-values :
      (bs : List (List ℕ)) (t : Tree)
      → IsTree t
      → (values 0 (add_leaves bs t).cur_num (add_leaves bs t).nodes
          ≡ values 0 t.cur_num t.nodes ++ map digest bs)
        × ((add_leaves bs t).cur_num ≡ t.cur_num + length bs)
        × IsTree (add_leaves bs t)
  unfolding add_leaves
  add_leaves-values [] t h = (sym (append-nil (values 0 t.cur_num t.nodes)), omega arith, h)
  add_leaves-values (b ∷ bs) t h =
      let a = add_leaf_node-values b t h in
      let r = add_leaves-values bs (add_leaf_node digest b t) a.2 in
      (
        r.0 ∙ rw a.0 (append_assoc (values 0 t.cur_num t.nodes) (digest b ∷ []) (map digest bs)),
        omega (arith, r.1, a.1),
        r.2,
      )

  -- The root of a cleared tree to which the data of a block's transactions is added is the root over
  -- their hashes, in order; there is one as soon as there is a transaction.
  pub build_merkle_tree-add_leaves :
      (b : List ℕ) (bs : List (List ℕ)) (t : Tree)
      → let d = add_leaves (b ∷ bs) (clear t) in
        ((build_merkle_tree digest d).1 ≡ true)
        × (root_of digest (length (b ∷ bs)) (map digest (b ∷ bs))
            ≡ some (get_root (build_merkle_tree digest d).0))
  unfolding clear values
  build_merkle_tree-add_leaves b bs t =
      let d : Tree = add_leaves (b ∷ bs) (clear t) in
      let a = add_leaves-values (b ∷ bs) (clear t) (omega arith) in
      let n : d.cur_num ≡ length (b ∷ bs) = a.1 ∙ omega arith in
      let r = (build_merkle_tree-root digest d).1 (omega (arith, n)) in (r.0, rw (← n, ← a.0) r.1)
