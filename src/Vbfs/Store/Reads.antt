-- ===== src/Vbfs/Store/Reads.antt =====
-- Reading a page through the page table.
use vorder.Base.{
  ℕ, ◌≡◌, sym, ap, ◌∙◌, inl, inr, true, Option, some, List, leb, length, arith, Bool-cases,
  Option-cases,
}
use vorder.Vbfs.Device.{read_bytes, length-read_bytes}
use vorder.Vbfs.Raw.{RawVbfs, read, phy_file, address}
use vorder.Vbfs.PageTable.{PageTable, read_page, get_file_id, get_offset}
use vorder.Vbfs.Store.{store_read}

module _ (p : PageTable) where
  unfoldable pub read_at : RawVbfs → ℕ → Option (List ℕ)
  read_at v i = read true p.table_type (get_file_id p i) p.page_size (get_offset p i) v

  pub store_read_lem : (i : ℕ) (v : RawVbfs) → store_read p i v ≡ read_at v i
  unfolding store_read read_at read_page read
  store_read_lem i v =
      elim (Bool-cases (leb (v.logic_file_idx p.table_type).cur_num (get_file_id p i))) [
        | inl missing ↦ ground arith
        | inr found ↦ ground arith
      ]

  pub read_at-length :
      (i : ℕ) (v : RawVbfs) (c : List ℕ) → read_at v i ≡ some c → length c ≡ p.page_size
  unfolding read_at read
  read_at-length i v c e = elim (Option-cases (phy_file p.table_type (get_file_id p i) v)) [
    | inl missing ↦ absurd (ground (arith, missing))
    | inr (phy, f) ↦
        let same : read_bytes v.device.bytes (address v phy (get_offset p i)) p.page_size ≡ c =
          ground (arith, f, e) in
        ap length (sym same)
        ∙ length-read_bytes v.device.bytes (address v phy (get_offset p i)) p.page_size
  ]
