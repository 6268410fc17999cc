-- ===== src/Examples/Volumes.antt =====
-- Small raw devices, a file volume, and a table of pages of two bytes.
use vorder.Base.{
  ℕ, ◌+◌, ◌/◌, ◌^◌, ◌<◌, ◌≡◌, ◌≢◌, refl, sym, leb, Bool-cases, inl, inr, ◌*◌, true, false, none,
  some, List, [], ◌∷◌, ◌&&◌, if◌then◌else◌, ◌==◌, arith,
}
use vorder.Vbfs.Device.{ok}
use vorder.Vbfs.Raw.{
  RawVbfs, no_files, index_size, allocat_file, open_raw, ready, fault, phy_file, read, write,
}
use vorder.Vbfs.Raw.Allocate.{unused, volume_index, IsVolume, allocat_file-IsVolume}
use vorder.Vbfs.Raw.Reopen.{no_files-Maps, open_raw-IsVolume, open_raw_full}
use vorder.Vbfs.Raw.Files.{IsAddressable, InFile, Apart, write-read}
use vorder.Vbfs.File.{FileVbfs}
use vorder.Vbfs.File.Full.{file_impl, allocat-full_file}
use vorder.Vbfs.Volumes.{raw_impl, opened, allocat, read_file}
use vorder.Vbfs.Volumes.Locate.{total, allocat-full}
use vorder.Vbfs.PageTable.{PageTable, IsPaged}
use vorder.Vbfs.Store.{store_page, store_read, IsHolding}
use vorder.Vbfs.Store.Durable.{open_raw-store_page}

-- A formatted device of `n` files of 8 bytes.
abbrev pub fresh : ℕ → RawVbfs
fresh n = record {
  device = record { bytes = λ a. 0 };
  start_free_phy_file_idx = 0;
  first_phy_file_offset = index_size (record { file_num = n; file_size = 8 });
  logic_file_idx = no_files;
  sector = λ j. unused;
  param = record { file_num = n; file_size = 8 };
}

fresh-unused : (n k : ℕ) → volume_index (fresh n) k ≡ unused
unfolding volume_index
fresh-unused n k = elim (Bool-cases (leb (8 * k + 8) (index_size (fresh n).param))) [
  | inl inside ↦ rw inside refl
  | inr behind ↦ rw behind refl
]

pub fresh-IsVolume : (n : ℕ) → 8 * n + 511 < 2 ^ 32 → IsVolume (fresh n)
fresh-IsVolume n small = record {
  small = small;
  start_le = omega arith;
  placed = refl;
  index_ok = record {
    used = λ i h. elim h [ ];
    numbered = λ i h. elim h [ ];
    free = λ i h. fresh-unused n i;
  };
  sector_ok = record { same = λ j ne h. sym (fresh-unused n (0 + j)) };
  maps = no_files-Maps (volume_index (fresh n));
}

-- The same with the first file of type 1.
abbrev one_file : ℕ → RawVbfs
one_file n = (allocat_file true 1 0 (fresh n)).0

one_file-IsVolume : (n : ℕ) → 8 * n + 511 < 2 ^ 32 → IsVolume (one_file n)
one_file-IsVolume n small =
    (allocat_file-IsVolume 1 0 (fresh n) (fresh-IsVolume n small) (omega arith) (omega arith)).0

allocat_file-IsVolume_example :
    let (w, r) = allocat_file true 1 0 (fresh 3) in
    IsVolume w
    × (r ≡ ok)
    × ((u k : ℕ) → phy_file u k w ≡ (if 1 == u && 0 == k then some 0 else phy_file u k (fresh 3)))
allocat_file-IsVolume_example =
    allocat_file-IsVolume 1 0 (fresh 3) (fresh-IsVolume 3 (omega arith)) (omega arith) (omega arith)

open_raw-IsVolume_example :
    (w : RawVbfs) × (open_raw (one_file 3).device (one_file 3).param ≡ ready w)
    × IsVolume w
    × (w.start_free_phy_file_idx ≡ (one_file 3).start_free_phy_file_idx)
    × ((t id : ℕ)
        → (phy_file t id w ≡ phy_file t id (one_file 3))
          × ((size offset : ℕ)
              → read true t id size offset w ≡ read true t id size offset (one_file 3)))
unfolding allocat_file
open_raw-IsVolume_example =
    open_raw-IsVolume (one_file 3) (one_file-IsVolume 3 (omega arith)) (omega arith)

open_raw_full_example : open_raw (one_file 1).device (one_file 1).param ≡ fault
unfolding allocat_file
open_raw_full_example = open_raw_full (one_file 1) (one_file-IsVolume 1 (omega arith)) refl

one_file-IsAddressable : IsAddressable (one_file 3)
unfolding allocat_file index_size
one_file-IsAddressable = record { below = omega arith }

write-read_example :
    let w = (write true 1 0 (7 ∷ 8 ∷ []) 2 (one_file 3)).0 in
    IsVolume w
    × (read true 1 0 2 2 w ≡ some (7 ∷ 8 ∷ []))
    × ((u k at n : ℕ)
        → InFile (one_file 3) at n
        → 0 < n
        → Apart 1 0 2 2 u k at n
        → read true u k n at w ≡ read true u k n at (one_file 3))
unfolding allocat_file write
write-read_example =
    write-read (one_file 3) (one_file-IsVolume 3 (omega arith)) one_file-IsAddressable 1 0 2
      (7 ∷ 8 ∷ []) (omega arith) (omega arith) refl

allocat-full_example :
    (allocat raw_impl 1 1 (opened (fresh 3) ∷ []) (one_file 1 ∷ [])
      ≡ some (one_file 1 ∷ one_file 3 ∷ [], true))
    × ((size offset : ℕ)
        → read_file raw_impl 1 1 size offset (one_file 1 ∷ one_file 3 ∷ [])
          ≡ some (read true 1 0 size offset (one_file 3)))
unfolding allocat_file total
allocat-full_example =
    allocat-full raw_impl 1 [] (one_file 1) (fresh 3) (one_file 3) [] (omega arith) refl refl refl
      refl

abbrev pages_of_two : PageTable
pages_of_two = record { table_type = 1; page_size = 2; file_page_num = 4 }

pages_of_two-IsPaged : IsPaged pages_of_two (one_file 3)
unfolding allocat_file
pages_of_two-IsPaged = record {
  some_page = omega arith;
  some_byte = omega arith;
  fits = omega arith;
}

one_file-IsHolding : IsHolding pages_of_two (one_file 3)
one_file-IsHolding = record {
  valid = one_file-IsVolume 3 (omega arith);
  addressable = one_file-IsAddressable;
  paged = pages_of_two-IsPaged;
}

-- The first page of the second file.
abbrev after_write : RawVbfs
unfolding store_page
after_write = (store_page pages_of_two true 4 (7 ∷ 8 ∷ []) (one_file 3)).0

open_raw-store_page_example :
    IsHolding pages_of_two after_write
    × (u : RawVbfs) × (open_raw after_write.device after_write.param ≡ ready u)
    × (store_read pages_of_two 4 u ≡ some (7 ∷ 8 ∷ []))
    × ((j : ℕ) (d : List ℕ)
        → 4 ≢ j
        → j / 4 < 2 ^ 32
        → store_read pages_of_two j (one_file 3) ≡ some d
        → store_read pages_of_two j u ≡ some d)
unfolding store_page after_write allocat_file write
open_raw-store_page_example =
    open_raw-store_page pages_of_two true 4 (7 ∷ 8 ∷ []) (one_file 3) (omega arith) (omega arith)
      one_file-IsHolding refl (omega arith) refl (omega arith)

-- A file volume that has its only file.
abbrev full_volume : FileVbfs
full_volume = record {
  type_file = λ t. record {
    handles = [];
    max_allocated_file_id = if t == 1 then 1 else 0;
    opened_file_num = 0;
  };
  total_file_num = 1;
  param = record { file_num = 1; file_size = 8 };
  dir = λ t id. if t == 1 && id == 0 then some (λ a. 0) else none;
}

allocat-full_file_example :
    allocat file_impl 1 1 (opened full_volume ∷ []) (full_volume ∷ [])
    ≡ some (full_volume ∷ [], false)
unfolding total
allocat-full_file_example =
    allocat-full_file 1 1 [] full_volume (opened full_volume ∷ []) (omega arith) (omega arith)
      (omega arith)
