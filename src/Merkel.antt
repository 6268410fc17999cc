-- ===== src/Merkel.antt =====
-- merkel_tree.{h,inl,cpp}: CMerkelTree. The array m_pNodes is a function of the index, of which the
-- first `alloc_num` cells are allocated. `digest` is vbhDigest, of the OpenSSL wrapper.
pub mod Root
pub mod Leaves
use vorder.Base.{
  ℕ, zero, suc, ◌+◌, Bool, true, false, List, [], ◌++◌, ltb, leb, if◌then◌else◌, ◌==◌,
}

-- CMerkelNode: the hash value, and the half of the buffer behind it.
pub record Node : Type 0 where
  pub value : List ℕ
  pub behind : List ℕ

pub record Tree : Type 0 where
  pub nodes : ℕ → Node
  pub alloc_num : ℕ
  pub cur_num : ℕ

abbrev empty_node : Node
empty_node = record { value = []; behind = [] }

-- MERKEL_TREE_INIT_NODE_COUNT, MERKEL_TREE_NODE_INCREASE_STEP
unfoldable pub new_tree : Tree
new_tree = record { nodes = λ i. empty_node; alloc_num = 1024; cur_num = 0 }

unfoldable pub store : ℕ → Node → (ℕ → Node) → ℕ → Node
store i n nodes j = if i == j then n else nodes j

unfoldable pub clear : Tree → Tree
clear t = record t { cur_num = 0 }

-- Copies the hash values of the nodes in use: CMerkelNode's assignment copies no more.
incease_node : Tree → Tree
incease_node t = record t {
  nodes =
      λ i. if ltb i t.cur_num then record empty_node { value = (t.nodes i).value } else empty_node;
  alloc_num = t.alloc_num + 256;
}

unfoldable pub get_root : Tree → List ℕ
get_root t = (t.nodes 0).value

module _ (digest : List ℕ → List ℕ) where
  unfoldable pub add_leaf_node : List ℕ → Tree → Tree
  unfolding incease_node store
  add_leaf_node bytes t =
      let u = if leb t.alloc_num t.cur_num then incease_node t else t in
      record u {
        nodes = store u.cur_num (record (u.nodes u.cur_num) { value = digest bytes }) u.nodes;
        cur_num = u.cur_num + 1;
      }

  -- CalculateHashValue: the left hash is copied behind the right one, and the whole buffer hashed.
  unfoldable pub calculate_hash_value : ℕ → ℕ → ℕ → (ℕ → Node) → ℕ → Node
  unfolding store
  calculate_hash_value left right parent nodes =
      let joined = store right (record (nodes right) { behind = (nodes left).value }) nodes in
      store parent
        (record (joined parent) { value = digest ((joined right).value ++ (joined right).behind) })
        joined

  -- The for loop over one level, from `idx` on, with the number of nodes that it leaves; `fuel` bounds
  -- its rounds.
  unfoldable pub level : ℕ → ℕ → ℕ → ℕ → (ℕ → Node) → (ℕ → Node) × ℕ
  unfolding calculate_hash_value
  level zero cur idx new nodes = (nodes, new)
  level (suc fuel) cur idx new nodes = elim (ltb idx cur) [
    | true ↦
        level fuel cur (idx + 2) (new + 1)
          (calculate_hash_value idx (if ltb (idx + 1) cur then idx + 1 else idx) new nodes)
    | false ↦ (nodes, new)
  ]

  -- The while loop over the levels.
  unfoldable pub levels : ℕ → ℕ → (ℕ → Node) → ℕ → Node
  unfolding level
  levels zero cur nodes = nodes
  levels (suc fuel) cur nodes = elim (ltb 1 cur) [
    | true ↦ let (upper, new) = level cur cur 0 0 nodes in levels fuel new upper
    | false ↦ nodes
  ]

  -- BuildMerkleTree; the Bool tells whether it returned 0.
  unfoldable pub build_merkle_tree : Tree → Tree × Bool
  unfolding levels
  build_merkle_tree t =
      if t.cur_num == 0
      then (t, false)
      else (record t { nodes = levels t.cur_num t.cur_num t.nodes }, true)
