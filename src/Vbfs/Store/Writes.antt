-- ===== src/Vbfs/Store/Writes.antt =====
-- Writing a page through the page table.
use vorder.Base.{
  ℕ, ◌/◌, ◌%◌, ◌^◌, ◌<◌, ◌≡◌, ◌≢◌, refl, sym, ap, ◌∙◌, ◌⊎◌, inl, inr, Bool, true, false, some, List,
  [], ◌∷◌, ◌==◌, leb, length, arith, Bool-cases,
}
use vorder.Vbfs.Device.{IoResult, ok, disk_full, disk_error, logic_error}
use vorder.Vbfs.Raw.{RawVbfs, read, write, allocat_file}
use vorder.Vbfs.Raw.Allocate.{IsVolume, allocat_file-IsVolume}
use vorder.Vbfs.Raw.Files.{write-read, write-IsVolume}
use vorder.Vbfs.Volumes.{raw_impl, allocat}
use vorder.Vbfs.PageTable.{
  PageTable, write_page, write_new_page, get_file_id, get_offset, page-InFile, pages-Apart,
}
use vorder.Vbfs.Store.{store_page, IsHolding}
use vorder.Vbfs.Store.Reads.{read_at}
use vorder.Vbfs.Raw.Grown.{allocat_file-keeps, allocat_file-read}

moved :
    (p : PageTable) (v w : RawVbfs)
    → IsHolding p v
    → IsVolume w
    → w.param ≡ v.param
    → w.first_phy_file_offset ≡ v.first_phy_file_offset
    → IsHolding p w
moved p v w h valid same first = record {
  valid = valid;
  addressable = record { below = rw (same, first) h.addressable.below };
  paged = record {
    some_page = h.paged.some_page;
    some_byte = h.paged.some_byte;
    fits = rw same h.paged.fits;
  };
}

-- AllocatFile on a channel with one raw device and no other offered.
allocat_single :
    (t id : ℕ) (v : RawVbfs)
    → let w = (allocat_file true t id v).0 in
      (allocat raw_impl t id [] (v ∷ []) ≡ some (w ∷ [], true))
      ⊎ (allocat raw_impl t id [] (v ∷ []) ≡ some (w ∷ [], false))
unfolding allocat
allocat_single t id v = by_result (allocat_file true t id v).1 refl
  where
    by_result :
        (r : IoResult)
        → (allocat_file true t id v).1 ≡ r
        → let w = (allocat_file true t id v).0 in
          (allocat raw_impl t id [] (v ∷ []) ≡ some (w ∷ [], true))
          ⊎ (allocat raw_impl t id [] (v ∷ []) ≡ some (w ∷ [], false))
    by_result ok e = inl (ground (arith, e))
    by_result disk_full e = inr (ground (arith, e))
    by_result disk_error e = inr (ground (arith, e))
    by_result logic_error e = inr (ground (arith, e))

module _ (p : PageTable) (low : 0 < p.table_type) (high : p.table_type < 8) where
  grown : ℕ → RawVbfs → RawVbfs
  grown i v = (allocat_file true p.table_type (get_file_id p i) v).0

  put : ℕ → List ℕ → RawVbfs → RawVbfs × Bool
  put i c v = write true p.table_type (get_file_id p i) c (get_offset p i) v

  grown-IsHolding : (i : ℕ) (v : RawVbfs) → IsHolding p v → IsHolding p (grown i v)
  unfolding grown
  grown-IsHolding i v h =
      let (same, first, bytes) = allocat_file-keeps p.table_type (get_file_id p i) v h.valid in
      moved p v (grown i v) h
        (allocat_file-IsVolume p.table_type (get_file_id p i) v h.valid low high).0 same first

  put-IsHolding :
      (i : ℕ) (c : List ℕ) (v : RawVbfs)
      → length c ≡ p.page_size
      → IsHolding p v
      → IsHolding p (put i c v).0
  unfolding put
  put-IsHolding i c v n h =
      let (valid, same, first) =
        write-IsVolume v h.valid h.addressable p.table_type (get_file_id p i) (get_offset p i) c
          (rw n (page-InFile p v h.paged i)) (omega (arith, n, h.paged.some_byte)) in
      moved p v (put i c v).0 h valid same first

  -- A page that can be read is read the same after AllocatFile.
  grown_keeps :
      (i j : ℕ) (v : RawVbfs) (c : List ℕ)
      → IsHolding p v
      → read_at p v j ≡ some c
      → read_at p (grown i v) j ≡ some c
  unfolding read_at grown
  grown_keeps i j v c h e =
      allocat_file-read p.table_type (get_file_id p i) p.table_type (get_file_id p j) p.page_size
        (get_offset p j) v c h.valid h.addressable (page-InFile p v h.paged j) h.paged.some_byte low
        high e

  -- What a page write comes to.
  write_page_lem : (i : ℕ) (c : List ℕ) (v : RawVbfs) → store_page p false i c v ≡ put i c v
  unfolding store_page put write_page write
  write_page_lem i c v =
      elim (Bool-cases (leb (v.logic_file_idx p.table_type).cur_num (get_file_id p i))) [
        | inl missing ↦ ground arith
        | inr found ↦ ground arith
      ]

  later_page :
      (i : ℕ) (c : List ℕ) (v : RawVbfs)
      → (i % p.file_page_num == 0) ≡ false
      → store_page p true i c v ≡ store_page p false i c v
  unfolding store_page write_new_page
  later_page i c v e = ground (arith, e)

  first_page :
      (i : ℕ) (c : List ℕ) (v : RawVbfs)
      → (i % p.file_page_num == 0) ≡ true
      → allocat raw_impl p.table_type (get_file_id p i) [] (v ∷ []) ≡ some (grown i v ∷ [], true)
      → (store_page p true i c v ≡ store_page p false i c (grown i v))
        ⊎ (store_page p true i c v ≡ (v, false))
  unfolding store_page write_new_page write_page
  first_page i c v first e =
      let n = ((grown i v).logic_file_idx p.table_type).cur_num in
      elim (Bool-cases (leb n (get_file_id p i))) [
        | inl missing ↦ inr (ground (arith, first, e, missing))
        | inr found ↦ inl (ground (arith, first, e, found))
      ]

  no_page :
      (i : ℕ) (c : List ℕ) (v : RawVbfs)
      → (i % p.file_page_num == 0) ≡ true
      → allocat raw_impl p.table_type (get_file_id p i) [] (v ∷ []) ≡ some (grown i v ∷ [], false)
      → store_page p true i c v ≡ (grown i v, false)
  unfolding store_page write_new_page
  no_page i c v first e = ground (arith, first, e)

  -- The outcomes of a page write: nothing, the write, the write after AllocatFile, or AllocatFile.
  Outcome : ℕ → List ℕ → RawVbfs → RawVbfs × Bool → Type 0
  Outcome i c v r =
      (r ≡ (v, false)) ⊎ ((r ≡ put i c v) ⊎ ((r ≡ put i c (grown i v)) ⊎ (r ≡ (grown i v, false))))

  store_page-Outcome :
      (is_new : Bool) (i : ℕ) (c : List ℕ) (v : RawVbfs) → Outcome i c v (store_page p is_new i c v)
  unfolding Outcome grown
  store_page-Outcome false i c v = inr (inl (write_page_lem i c v))
  store_page-Outcome true i c v = elim (Bool-cases (i % p.file_page_num == 0)) [
    | inr later ↦ inr (inl (later_page i c v later ∙ write_page_lem i c v))
    | inl first ↦ elim (allocat_single p.table_type (get_file_id p i) v) [
      | inl e ↦ elim (first_page i c v first e) [
        | inl f ↦ inr (inr (inl (f ∙ write_page_lem i c (grown i v))))
        | inr f ↦ inl f
      ]
      | inr e ↦ inr (inr (inr (no_page i c v first e)))
    ]
  ]

  pub store_page-IsHolding :
      (is_new : Bool) (i : ℕ) (c : List ℕ) (v : RawVbfs)
      → length c ≡ p.page_size
      → IsHolding p v
      → IsHolding p (store_page p is_new i c v).0
  unfolding Outcome
  store_page-IsHolding is_new i c v n h = elim (store_page-Outcome is_new i c v) [
    | inl e ↦ rw e h
    | inr o ↦ elim o [
      | inl e ↦ rw e (put-IsHolding i c v n h)
      | inr o' ↦ elim o' [
        | inl e ↦ rw e (put-IsHolding i c (grown i v) n (grown-IsHolding i v h))
        | inr e ↦ rw e (grown-IsHolding i v h)
      ]
    ]
  ]

  -- A page write that succeeds is read back, and keeps every other page.
  pub record Stores (i : ℕ) (c : List ℕ) (v w : RawVbfs) : Type 0 where
    pub read_back : read_at p w i ≡ some c
    pub others :
        (j : ℕ) (d : List ℕ)
        → i ≢ j
        → j / p.file_page_num < 2 ^ 32
        → read_at p v j ≡ some d
        → read_at p w j ≡ some d

  put-Stores :
      (i : ℕ) (c : List ℕ) (v : RawVbfs)
      → IsHolding p v
      → length c ≡ p.page_size
      → i / p.file_page_num < 2 ^ 32
      → (put i c v).1 ≡ true
      → Stores i c v (put i c v).0
  unfolding put read_at
  put-Stores i c v h n small done =
      let t = p.table_type in
      let (valid, self, others) =
        write-read v h.valid h.addressable t (get_file_id p i) (get_offset p i) c
          (rw n (page-InFile p v h.paged i)) (omega (arith, n, h.paged.some_byte)) done in
      let again : read_at p (put i c v).0 i ≡ some c =
        ap
          (λ (k : ℕ).
            read true t (get_file_id p i) k (get_offset p i)
              (write true t (get_file_id p i) c (get_offset p i) v).0)
          (sym n)
        ∙ self in
      record {
        read_back = again;
        others = λ j d ne k e.
            others t (get_file_id p j) (get_offset p j) p.page_size (page-InFile p v h.paged j)
              h.paged.some_byte (rw n (pages-Apart p v h.paged i j ne small k))
            ∙ e;
      }

  pub store_page-Stores :
      (is_new : Bool) (i : ℕ) (c : List ℕ) (v : RawVbfs)
      → IsHolding p v
      → length c ≡ p.page_size
      → i / p.file_page_num < 2 ^ 32
      → (store_page p is_new i c v).1 ≡ true
      → Stores i c v (store_page p is_new i c v).0
  unfolding Outcome
  store_page-Stores is_new i c v h n small done = elim (store_page-Outcome is_new i c v) [
    | inl e ↦ absurd (ground (arith, e))
    | inr o ↦ elim o [
      | inl e ↦ rw e (put-Stores i c v h n small (ap (λ (r : RawVbfs × Bool). r.1) (sym e) ∙ done))
      | inr o' ↦ elim o' [
        | inr e ↦ absurd (ground (arith, e))
        | inl e ↦
            let s =
              put-Stores i c (grown i v) (grown-IsHolding i v h) n small
                (ap (λ (r : RawVbfs × Bool). r.1) (sym e) ∙ done) in
            rw e (record {
              read_back = s.read_back;
              others = λ j d ne k f. s.others j d ne k (grown_keeps i j v d h f);
            })
      ]
    ]
  ]
