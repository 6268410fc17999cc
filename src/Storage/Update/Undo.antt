-- ===== src/Storage/Update/Undo.antt =====
-- Putting the overwritten bytes of records back into a page, first item first.
use vorder.Base.{
  ℕ, zero, suc, ◌+◌, ◌≤◌, ◌≡◌, ◌≢◌, refl, sym, ap, ◌∙◌, inl, inr, Bool, false, ◌||◌, List, [], ◌∷◌,
  ◌++◌, if◌then◌else◌, ◌==◌, arith, length, take, drop, slice, splice, length-splice, Bool-cases,
  ==_iff, length-take,
}
use vorder.Storage.Cache.{Layout, get_offset, get_page_id}
use vorder.Storage.Record.{IsLayout, get_offset_apart}
use vorder.Storage.Update.{ModifyMemLogItem, restore}

splice_nil : {A : Type 0} (bs c : List A) → bs ≡ [] → splice 0 bs c ≡ c
unfolding splice
splice_nil [] [] h = refl
splice_nil [] (x ∷ c) h = refl
splice_nil (b ∷ bs) c h = absurd (cc)

-- Two ranges that do not meet are written in any order.
splice_comm :
    {A : Type 0} (a b : ℕ) (xs ys c : List A)
    → a + length xs ≤ b
    → splice b ys (splice a xs c) ≡ splice a xs (splice b ys c)
unfolding splice
splice_comm a b xs ys [] h = refl
splice_comm zero zero [] ys (x ∷ c) h = sym (splice_nil [] (splice 0 ys (x ∷ c)) refl)
splice_comm zero (suc b) [] ys (x ∷ c) h = refl
splice_comm zero zero (y ∷ xs) ys (x ∷ c) h = absurd (omega arith)
splice_comm zero (suc b) (y ∷ xs) ys (x ∷ c) h =
    ap (◌∷◌ y) (splice_comm zero b xs ys c (omega arith))
splice_comm (suc a) zero xs ys (x ∷ c) h = absurd (omega arith)
splice_comm (suc a) (suc b) xs ys (x ∷ c) h = ap (◌∷◌ x) (splice_comm a b xs ys c (omega arith))

-- What a range held is put back over what was written into it.
pub splice_restore :
    {A : Type 0} (off n : ℕ) (bs c : List A)
    → length bs ≤ n
    → splice off (slice off n c) (splice off bs c) ≡ c
unfolding splice slice
splice_restore off n bs [] h = refl
splice_restore zero zero [] (x ∷ c) h = refl
splice_restore zero zero (b ∷ bs) (x ∷ c) h = absurd (omega arith)
splice_restore zero (suc n) [] (x ∷ c) h = ap (◌∷◌ x) (
    ap (splice 0 (take n c)) (sym (splice_nil [] c refl))
    ∙ splice_restore zero n [] c (omega arith))
splice_restore zero (suc n) (b ∷ bs) (x ∷ c) h =
    ap (◌∷◌ x) (splice_restore zero n bs c (omega arith))
splice_restore (suc off) n bs (x ∷ c) h = ap (◌∷◌ x) (splice_restore off n bs c h)

-- The later of two writes of a range counts.
pub splice_again :
    {A : Type 0} (off : ℕ) (xs ys c : List A)
    → length ys ≤ length xs
    → splice off xs (splice off ys c) ≡ splice off xs c
unfolding splice
splice_again off xs ys [] h = refl
splice_again zero xs [] (x ∷ c) h = refl
splice_again zero [] (y ∷ ys) (x ∷ c) h = absurd (omega arith)
splice_again zero (z ∷ xs) (y ∷ ys) (x ∷ c) h = ap (◌∷◌ z) (splice_again zero xs ys c (omega arith))
splice_again (suc off) xs ys (x ∷ c) h = ap (◌∷◌ x) (splice_again off xs ys c h)

-- What RollbackCache makes of the content of page `i`.
unfoldable pub undo : Layout → ℕ → List ModifyMemLogItem → List ℕ → List ℕ
unfolding restore
undo l i [] c = c
undo l i (m ∷ ms) c = undo l i ms (if m.page == i then restore l m.record_id m.original c else c)

unfoldable pub has_record : ℕ → List ModifyMemLogItem → Bool
has_record r [] = false
has_record r (m ∷ ms) = (m.record_id == r) || has_record r ms

-- Every item holds at most the bytes of its record, and points to the record's page.
abbrev pub AreItems : Layout → List ModifyMemLogItem → Type 0
AreItems l [] = Unit {0}
AreItems l (m ∷ ms) =
    (m.page ≡ get_page_id l m.record_id) × (length m.original ≤ l.record_len) × AreItems l ms

pub AreItems-append :
    (l : Layout) (ms : List ModifyMemLogItem) (m : ModifyMemLogItem)
    → AreItems l ms
    → m.page ≡ get_page_id l m.record_id
    → length m.original ≤ l.record_len
    → AreItems l (ms ++ m ∷ [])
AreItems-append l [] m h p n = (p, n, tt)
AreItems-append l (k ∷ ms) m h p n = (h.0, h.1, AreItems-append l ms m h.2 p n)

pub has_record-append :
    (r : ℕ) (ms : List ModifyMemLogItem) (m : ModifyMemLogItem)
    → has_record r (ms ++ m ∷ []) ≡ (has_record r ms || (m.record_id == r))
unfolding has_record
has_record-append r [] m = ground arith
has_record-append r (k ∷ ms) m = ground (arith, has_record-append r ms m)

pub length-undo :
    (l : Layout) (i : ℕ) (ms : List ModifyMemLogItem) (c : List ℕ)
    → length (undo l i ms c) ≡ length c
unfolding undo restore
length-undo l i [] c = refl
length-undo l i (m ∷ ms) c = elim (Bool-cases (m.page == i)) [
  | inl e ↦ rw e (
      length-undo l i ms (splice (get_offset l m.record_id) m.original c)
      ∙ length-splice (get_offset l m.record_id) m.original c)
  | inr e ↦ rw e (length-undo l i ms c)
]

pub length-slice_le : (off n : ℕ) (c : List ℕ) → length (slice off n c) ≤ n
unfolding slice
length-slice_le off n c = omega (arith, length-take n (drop off c))

module _ (l : Layout) (ok : IsLayout l) where
  -- The bytes of two records of one page are written in any order.
  records_comm :
      (a b : ℕ) (xs ys c : List ℕ)
      → a ≢ b
      → get_page_id l a ≡ get_page_id l b
      → length xs ≤ l.record_len
      → length ys ≤ l.record_len
      → splice (get_offset l b) ys (splice (get_offset l a) xs c)
        ≡ splice (get_offset l a) xs (splice (get_offset l b) ys c)
  records_comm a b xs ys c ne e n m = elim (get_offset_apart l a b ok ne e) [
    | inl h ↦ splice_comm (get_offset l a) (get_offset l b) xs ys c (omega arith)
    | inr h ↦ sym (splice_comm (get_offset l b) (get_offset l a) ys xs c (omega arith))
  ]

  undo_comm :
      (ms : List ModifyMemLogItem) (r : ℕ) (xs c : List ℕ)
      → AreItems l ms
      → has_record r ms ≡ false
      → length xs ≤ l.record_len
      → undo l (get_page_id l r) ms (splice (get_offset l r) xs c)
        ≡ splice (get_offset l r) xs (undo l (get_page_id l r) ms c)
  unfolding undo restore has_record
  undo_comm [] r xs c h out n = refl
  undo_comm (m ∷ ms) r xs c h out n =
      let i = get_page_id l r in
      let fresh : has_record r ms ≡ false = ground arith in
      elim (Bool-cases (m.page == i)) [
        | inr e ↦ rw e (undo_comm ms r xs c h.2 fresh n)
        | inl e ↦
            let ne : r ≢ m.record_id = λ q. absurd (ground arith) in
            let same : i ≡ get_page_id l m.record_id = sym ((==_iff m.page i).0 e) ∙ h.0 in
            rw e (
              ap (undo l i ms) (records_comm r m.record_id xs m.original c ne same n h.1)
              ∙ undo_comm ms r xs (splice (get_offset l m.record_id) m.original c) h.2 fresh n)
      ]

  undo-append :
      (i : ℕ) (ms : List ModifyMemLogItem) (m : ModifyMemLogItem) (c : List ℕ)
      → undo l i (ms ++ m ∷ []) c
        ≡ (if m.page == i then restore l m.record_id m.original (undo l i ms c) else undo l i ms c)
  unfolding undo
  undo-append i [] m c = ground arith
  undo-append i (k ∷ ms) m c =
      undo-append i ms m (if k.page == i then restore l k.record_id k.original c else c)

  -- The bytes that Update keeps bring back the page before it, when no item of the record was there.
  pub undo-update :
      (ms : List ModifyMemLogItem) (r : ℕ) (bytes c : List ℕ)
      → AreItems l ms
      → has_record r ms ≡ false
      → length bytes ≤ l.record_len
      → undo l
          (get_page_id l r)
          (ms
            ++ record {
              record_id = r;
              original = slice (get_offset l r) l.record_len c;
              page = get_page_id l r;
            }
              ∷ [])
          (splice (get_offset l r) bytes c)
        ≡ undo l (get_page_id l r) ms c
  unfolding restore
  undo-update ms r bytes c h out n =
      let i = get_page_id l r in
      let original = slice (get_offset l r) l.record_len c in
      let item : ModifyMemLogItem = record { record_id = r; original = original; page = i } in
      let short : length original ≤ l.record_len =
        length-slice_le (get_offset l r) l.record_len c in
      let last : undo l i (ms ++ item ∷ []) (splice (get_offset l r) bytes c)
          ≡ splice (get_offset l r) original (undo l i ms (splice (get_offset l r) bytes c)) =
        ground (arith, undo-append i ms item (splice (get_offset l r) bytes c)) in
      last
      ∙ sym (undo_comm ms r original (splice (get_offset l r) bytes c) h out short)
      ∙ ap (undo l i ms) (splice_restore (get_offset l r) l.record_len bytes c n)

  pub undo-append_ne :
      (i : ℕ) (ms : List ModifyMemLogItem) (m : ModifyMemLogItem) (c : List ℕ)
      → m.page ≢ i
      → undo l i (ms ++ m ∷ []) c ≡ undo l i ms c
  undo-append_ne i ms m c ne = ground (arith, undo-append i ms m c)
