-- ===== src/Merkel/Root.antt =====
-- The root that BuildMerkleTree leaves in the first node, against a description on lists.
use vorder.Base.{
  ℕ, zero, suc, ◌+◌, ◌≤◌, ◌<◌, ◌≡◌, refl, sym, ap, ◌∙◌, true, false, List, [], ◌∷◌, ◌++◌, ltb,
  if◌then◌else◌, ◌==◌, length, arith, lt→ltb, Option, none, some,
}
use vorder.Merkel.{
  Node, Tree, store, calculate_hash_value, level, levels, build_merkle_tree, get_root,
}

-- The hash values of `n` nodes from `i` on.
unfoldable pub values : ℕ → ℕ → (ℕ → Node) → List (List ℕ)
values i zero nodes = []
values i (suc n) nodes = (nodes i).value ∷ values (i + 1) n nodes

-- Two arrays with the same values from `i` on.
values_cong :
    (i n : ℕ) (f g : ℕ → Node)
    → ((j : ℕ) → i ≤ j → (f j).value ≡ (g j).value)
    → values i n f ≡ values i n g
unfolding values
values_cong i zero f g h = refl
values_cong i (suc n) f g h =
    ground (arith, h i, values_cong (i + 1) n f g (λ j k. h j (omega arith)))

module _ (digest : List ℕ → List ℕ) where
  -- One level of the tree: a hash for each pair, the right one first, the last one with itself.
  unfoldable pub pairs : List (List ℕ) → List (List ℕ)
  pairs [] = []
  pairs (a ∷ []) = digest (a ++ a) ∷ []
  pairs (a ∷ b ∷ rest) = digest (b ++ a) ∷ pairs rest

  -- The root over a list of leaf hashes.
  unfoldable pub root_of : ℕ → List (List ℕ) → Option (List ℕ)
  unfolding pairs
  root_of fuel [] = none
  root_of fuel (a ∷ []) = some a
  root_of zero (a ∷ b ∷ rest) = none
  root_of (suc fuel) (a ∷ b ∷ rest) = root_of fuel (pairs (a ∷ b ∷ rest))

  -- The parent's hash, and every other hash as it was.
  calculate-value :
      (left right parent j : ℕ) (nodes : ℕ → Node)
      → (calculate_hash_value digest left right parent nodes j).value ≡ (
          if parent == j
          then digest ((nodes right).value ++ (nodes left).value)
          else (nodes j).value)
  unfolding calculate_hash_value store
  calculate-value left right parent j nodes = ground arith

  level_end :
      (fuel cur idx new : ℕ) (nodes : ℕ → Node)
      → cur ≤ idx
      → level digest fuel cur idx new nodes ≡ (nodes, new)
  unfolding level
  level_end zero cur idx new nodes h = refl
  level_end (suc fuel) cur idx new nodes h = ground arith

  level_pair :
      (fuel cur idx new : ℕ) (nodes : ℕ → Node)
      → idx + 1 < cur
      → level digest (suc fuel) cur idx new nodes
        ≡ level digest fuel cur
            (idx + 2)
            (new + 1)
            (calculate_hash_value digest idx (idx + 1) new nodes)
  unfolding level
  level_pair fuel cur idx new nodes h =
      let t : ltb idx cur ≡ true = lt→ltb idx cur (omega arith) in
      let u : ltb (idx + 1) cur ≡ true = lt→ltb (idx + 1) cur h in rw (t, u, level)

  level_last :
      (fuel idx new : ℕ) (nodes : ℕ → Node)
      → level digest (suc fuel) (idx + 1) idx new nodes
        ≡ (calculate_hash_value digest idx idx new nodes, new + 1)
  unfolding level
  level_last fuel idx new nodes =
      let t : ltb idx (idx + 1) ≡ true = lt→ltb idx (idx + 1) (omega arith) in
      let u : ltb (idx + 1) (idx + 1) ≡ false = ground arith in
      rw (t, u, level)
        (level_end fuel (idx + 1) (idx + 2) (new + 1)
          (calculate_hash_value digest idx idx new nodes) (omega arith))

  -- What the loop over one level does from `idx` on, with `n` nodes left to read.
  level-pairs :
      (fuel n idx new : ℕ) (nodes : ℕ → Node)
      → n ≤ fuel
      → new ≤ idx
      → let r = level digest fuel (idx + n) idx new nodes in
        (r.1 ≡ new + length (pairs (values idx n nodes)))
        × (values new (length (pairs (values idx n nodes))) r.0 ≡ pairs (values idx n nodes))
        × ((j : ℕ) → j < new → (r.0 j).value ≡ (nodes j).value)
  unfolding pairs values
  level-pairs zero zero idx new nodes h k =
      rw (level_end zero (idx + 0) idx new nodes (omega arith)) (omega arith, refl, λ j l. refl)
  level-pairs zero (suc n) idx new nodes h k = absurd (omega arith)
  level-pairs (suc fuel) zero idx new nodes h k =
      rw (level_end (suc fuel) (idx + 0) idx new nodes (omega arith))
        (omega arith, refl, λ j l. refl)
  level-pairs (suc fuel) (suc zero) idx new nodes h k = rw (level_last fuel idx new nodes) (
    refl,
    ground (arith, calculate-value idx idx new new nodes),
    λ j l. ground (arith, calculate-value idx idx new j nodes),
  )
  level-pairs (suc fuel) (suc (suc n)) idx new nodes h k =
      let made = calculate_hash_value digest idx (idx + 1) new nodes in
      let at : idx + suc (suc n) ≡ idx + 2 + n = omega arith in
      let two : idx + 1 + 1 ≡ idx + 2 = omega arith in
      let below =
        values_cong (idx + 2) n made nodes
          (λ j l. ground (arith, calculate-value idx (idx + 1) new j nodes)) in
      let ih = level-pairs fuel n (idx + 2) (new + 1) made (omega arith) (omega arith) in
      let value : (made new).value ≡ digest ((nodes (idx + 1)).value ++ (nodes idx).value) =
        ground (arith, calculate-value idx (idx + 1) new new nodes) in
      rw (level_pair fuel (idx + suc (suc n)) idx new nodes (omega arith), at, two, ← below)
        (
          ih.0 ∙ omega arith,
          ground (arith, ih.1, ih.2 new, value),
          λ j l. ground (arith, ih.2 j, calculate-value idx (idx + 1) new j nodes),
        )

  length-pairs : (xs : List (List ℕ)) → 1 < length xs → length (pairs xs) < length xs
  unfolding pairs
  length-pairs [] h = absurd (omega arith)
  length-pairs (a ∷ []) h = absurd (omega arith)
  length-pairs (a ∷ b ∷ []) h = omega arith
  length-pairs (a ∷ b ∷ c ∷ []) h = omega arith
  length-pairs (a ∷ b ∷ c ∷ d ∷ rest) h = omega (arith, length-pairs (c ∷ d ∷ rest) (omega arith))

  pairs_pos : (xs : List (List ℕ)) → 0 < length xs → 0 < length (pairs xs)
  unfolding pairs
  pairs_pos [] h = absurd (omega arith)
  pairs_pos (a ∷ []) h = omega arith
  pairs_pos (a ∷ b ∷ rest) h = omega arith

  length-values : (i n : ℕ) (nodes : ℕ → Node) → length (values i n nodes) ≡ n
  unfolding values
  length-values i zero nodes = refl
  length-values i (suc n) nodes = ap suc (length-values (i + 1) n nodes)

  -- One level from the start of the array: the first nodes become the pairs.
  level_from_start :
      (n : ℕ) (nodes : ℕ → Node)
      → let r = level digest n n 0 0 nodes in
        (r.1 ≡ length (pairs (values 0 n nodes))) × (values 0 r.1 r.0 ≡ pairs (values 0 n nodes))
  level_from_start n nodes =
      let p = level-pairs n n 0 0 nodes (omega arith) (omega arith) in
      let at : 0 + n ≡ n = omega arith in
      let q = rw at at p in
      let m : (level digest n n 0 0 nodes).1 ≡ length (pairs (values 0 n nodes)) =
        q.0 ∙ omega arith in
      (m, rw m q.1)

  levels-root :
      (fuel n : ℕ) (nodes : ℕ → Node)
      → 0 < n
      → n ≤ suc fuel
      → root_of fuel (values 0 n nodes) ≡ some (levels digest fuel n nodes 0).value
  unfolding levels root_of values
  levels-root fuel zero nodes h k = absurd (omega arith)
  levels-root zero (suc zero) nodes h k = refl
  levels-root (suc fuel) (suc zero) nodes h k = refl
  levels-root zero (suc (suc n)) nodes h k = absurd (omega arith)
  levels-root (suc fuel) (suc (suc n)) nodes h k =
      let s = level_from_start (suc (suc n)) nodes in
      let xs = values 0 (suc (suc n)) nodes in
      let r : (ℕ → Node) × ℕ = level digest (suc (suc n)) (suc (suc n)) 0 0 nodes in
      let l = length-values 0 (suc (suc n)) nodes in
      let lt : r.1 < suc (suc n) = omega (arith, s.0, length-pairs xs (omega arith), l) in
      let pos : 0 < r.1 = omega (arith, s.0, pairs_pos xs (omega arith)) in
      let t : ltb 1 (suc (suc n)) ≡ true = lt→ltb 1 (suc (suc n)) (omega arith) in
      rw (t, levels) (ap (root_of fuel) (sym s.1) ∙ levels-root fuel r.1 r.0 pos (omega arith))

  -- BuildMerkleTree fails on the empty tree only, and otherwise leaves the root of the leaves' hashes
  -- in the first node.
  pub build_merkle_tree-root :
      (t : Tree)
      → (t.cur_num ≡ 0 → (build_merkle_tree digest t).1 ≡ false)
        × (0 < t.cur_num
            → ((build_merkle_tree digest t).1 ≡ true)
              × (root_of t.cur_num (values 0 t.cur_num t.nodes)
                  ≡ some (get_root (build_merkle_tree digest t).0)))
  unfolding build_merkle_tree get_root
  build_merkle_tree-root t = (
    λ e. ground arith,
    λ h. (ground arith, levels-root t.cur_num t.cur_num t.nodes h (omega arith) ∙ ground arith),
  )
