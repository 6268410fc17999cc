-- ===== src/Vbfs/Store.antt =====
-- CVbhPageTable over one raw device as the page store of the tables: a page is read and written
-- through the page table and CVbfs.
pub mod Reads
pub mod Writes
pub mod Held
pub mod Durable
use vorder.Base.{
  ℕ, ◌+◌, ◌*◌, ◌/◌, ◌%◌, ◌^◌, ◌≤◌, ◌<◌, ◌≡◌, ◌≢◌, refl, sym, ap, ◌∙◌, ◌⊎◌, inl, inr, Bool, true,
  false, Option, none, some, List, [], ◌∷◌, ◌&&◌, if◌then◌else◌, ◌==◌, ltb, leb, length, arith,
  Bool-cases, Option-cases, ==_iff, ltb→lt,
}
use vorder.Storage.PageStore.{PageStore}
use vorder.Vbfs.Device.{
  VbfsConfigParam, read_bytes, length-read_bytes, IoResult, ok, disk_full, disk_error, logic_error,
}
use vorder.Vbfs.Raw.{RawVbfs, read, write, phy_file, address, allocat_file, add_next}
use vorder.Vbfs.Raw.Allocate.{IsVolume, allocat_file-IsVolume}
use vorder.Vbfs.Raw.Files.{IsAddressable, InFile, Apart, write-read, write-IsVolume}
use vorder.Vbfs.Volumes.{raw_impl, allocat}
use vorder.Vbfs.PageTable.{
  PageTable, IsPaged, read_page, write_page, write_new_page, get_file_id, get_offset, page-InFile,
  pages-Apart,
}

-- WritePage or WriteNewPage; a call that faults counts as one that fails.
unfoldable pub store_page : PageTable → Bool → ℕ → List ℕ → RawVbfs → RawVbfs × Bool
unfolding write_page write_new_page
store_page p is_new i c v =
    elim (if is_new
      then write_new_page raw_impl p [] c i (v ∷ [])
      else write_page raw_impl p c i (v ∷ [])) [
        | none ↦ (v, false)
        | some ([], done) ↦ (v, false)
        | some (w ∷ ws, done) ↦ (w, done)
      ]

-- ReadPage; a call that faults counts as one that fails.
unfoldable pub store_read : PageTable → ℕ → RawVbfs → Option (List ℕ)
unfolding read_page
store_read p i v = elim (read_page raw_impl p i (v ∷ [])) [ none ↦ none | some r ↦ r ]

-- What the state of the store keeps.
pub record IsHolding (p : PageTable) (v : RawVbfs) : Type 0 where
  pub valid : IsVolume v
  pub addressable : IsAddressable v
  pub paged : IsPaged p v
