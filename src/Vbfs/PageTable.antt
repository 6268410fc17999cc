-- ===== src/Vbfs/PageTable.antt =====
-- vbh_page_table.{h,inl,cpp}: CVbhPageTable, the pages of a table in the files of CVbfs, a fixed number
-- of pages to a file.
use native.Mathlib.Nat.{mod-eq_of_lt}
use vorder.Base.{
  ℕ, ◌*◌, ◌/◌, ◌%◌, ◌^◌, ◌≤◌, ◌<◌, ◌≢◌, inl, inr, Bool, true, false, Option, none, some, List,
  if◌then◌else◌, ◌==◌, arith, Bool-cases, ==_iff,
}
use vorder.Storage.Cache
use vorder.Storage.Cache.{Layout}
use vorder.Storage.Record.{IsLayout, get_offset-fits, get_offset_apart}
use vorder.Vbfs.Raw.{RawVbfs}
use vorder.Vbfs.Raw.Files.{InFile, Apart}
use vorder.Vbfs.Volumes.{VbfsImpl, Offer, read_file, write_file, allocat}

pub record PageTable : Type 0 where
  pub table_type : ℕ
  pub page_size : ℕ
  pub file_page_num : ℕ

-- GetFileID, cut to the 32 bits of the file id that CVbfs takes.
unfoldable pub get_file_id : PageTable → ℕ → ℕ
get_file_id p i = i / p.file_page_num % 2 ^ 32

unfoldable pub get_offset : PageTable → ℕ → ℕ
get_offset p i = (i % p.file_page_num) * p.page_size

module _ (impl : VbfsImpl) where
  unfoldable pub read_page : PageTable → ℕ → List impl.State → Option (Option (List ℕ))
  unfolding get_file_id get_offset read_file
  read_page p i ds = read_file impl p.table_type (get_file_id p i) p.page_size (get_offset p i) ds

  unfoldable pub write_page :
      PageTable → List ℕ → ℕ → List impl.State → Option (List impl.State × Bool)
  unfolding get_file_id get_offset write_file
  write_page p page i ds = write_file impl p.table_type (get_file_id p i) page (get_offset p i) ds

  -- WriteNewPage; the first page of a file has the file allocated.
  unfoldable pub write_new_page :
      PageTable
      → List (Offer impl.State)
      → List ℕ
      → ℕ
      → List impl.State
      → Option (List impl.State × Bool)
  unfolding allocat write_page
  write_new_page p offers page i ds =
      if i % p.file_page_num == 0
      then elim (allocat impl p.table_type (get_file_id p i) offers ds) [
        | none ↦ none
        | some (es, false) ↦ some (es, false)
        | some (es, true) ↦ write_page p page i es
      ]
      else write_page p page i ds

-- The pages of a file fit into it.
pub record IsPaged (p : PageTable) (v : RawVbfs) : Type 0 where
  pub some_page : 0 < p.file_page_num
  pub some_byte : 0 < p.page_size
  pub fits : p.file_page_num * p.page_size ≤ v.param.file_size

-- Pages lie in a file as records of one length lie in a page.
abbrev as_layout : PageTable → RawVbfs → Layout
as_layout p v = record {
  page_size = v.param.file_size;
  record_len = p.page_size;
  page_record_num = p.file_page_num;
}

module _ (p : PageTable) (v : RawVbfs) (h : IsPaged p v) where
  as_layout-IsLayout : IsLayout (as_layout p v)
  as_layout-IsLayout = record { some_record = h.some_page; fits = h.fits }

  pub page-InFile : (i : ℕ) → InFile v (get_offset p i) p.page_size
  unfolding get_offset Cache.get_offset
  page-InFile i = get_offset-fits (as_layout p v) i as_layout-IsLayout

  -- Two pages do not share a byte.
  pub pages-Apart :
      (i j : ℕ)
      → i ≢ j
      → i / p.file_page_num < 2 ^ 32
      → j / p.file_page_num < 2 ^ 32
      → Apart p.table_type
          (get_file_id p i)
          (get_offset p i)
          p.page_size
          p.table_type
          (get_file_id p j)
          (get_offset p j)
          p.page_size
  unfolding get_offset get_file_id Cache.get_offset Cache.get_page_id
  pages-Apart i j ne small_i small_j =
      let ei = mod-eq_of_lt small_i in
      let ej = mod-eq_of_lt small_j in
      elim (Bool-cases (i / p.file_page_num == j / p.file_page_num)) [
        | inr other ↦ inr (inl (λ e. absurd (ground (arith, ei, ej, e))))
        | inl same ↦
            let e = (==_iff (i / p.file_page_num) (j / p.file_page_num)).0 same in
            elim (get_offset_apart (as_layout p v) i j as_layout-IsLayout ne e) [
              | inl a ↦ inr (inr (inr a))
              | inr a ↦ inr (inr (inl a))
            ]
      ]
