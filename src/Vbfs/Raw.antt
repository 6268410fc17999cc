-- ===== src/Vbfs/Raw.antt =====
-- vbfs_raw.{h,inl,cpp}: CRawVbfs, a raw device divided into physical files of one size. The index at
-- the start of the device says, for each physical file, to which logical file it belongs; the memory
-- has the inverse map. Whether a pread or pwrite succeeds is an argument; a failed pwrite leaves the
-- device as it was. Memory allocation does not fail.
pub mod Count
pub mod Index
pub mod Allocate
pub mod Reopen
pub mod Files
pub mod Grown
use vorder.Base.{
  ℕ, zero, suc, ◌+◌, ◌-◌, ◌*◌, ◌/◌, ◌%◌, ◌^◌, Bool, true, false, ◌&&◌, Option, none, some, List,
  if◌then◌else◌, ◌==◌, ltb, leb, length,
}
use vorder.Vbfs.Device.{
  PhyFileIndex, Device, VbfsConfigParam, IoResult, ok, disk_full, disk_error, logic_error,
  max_file_type, direct_io_phy_file_index_num, read_bytes, write_bytes, entry_at, write_entries,
}

-- SLogicFileIndex: `allocated` is whether m_pPhyFileIdx is not NULL, `phy_file_idx` the array.
pub record LogicFileIndex : Type 0 where
  pub allocated : Bool
  pub phy_file_idx : ℕ → ℕ
  pub alloc_num : ℕ
  pub cur_num : ℕ

-- `sector` is m_pPhyFileIdx, the sector of the index with the first free entry.
pub record RawVbfs : Type 0 where
  pub device : Device
  pub start_free_phy_file_idx : ℕ
  pub first_phy_file_offset : ℕ
  pub logic_file_idx : ℕ → LogicFileIndex
  pub sector : ℕ → PhyFileIndex
  pub param : VbfsConfigParam

-- EN_STEP_ENLARGE_NUM
abbrev step_enlarge_num : ℕ
step_enlarge_num = 1024

-- ++ on ACE_UINT32.
unfoldable pub inc32 : ℕ → ℕ
inc32 n = (n + 1) % 2 ^ 32

-- DSC_ROUND_DOWN to a whole sector.
abbrev pub round_down : ℕ → ℕ
round_down n = n / direct_io_phy_file_index_num * direct_io_phy_file_index_num

unfoldable pub resize_logic_file_index : LogicFileIndex → LogicFileIndex
resize_logic_file_index f =
    if f.allocated
    then if f.cur_num == f.alloc_num
      then record f {
        alloc_num = (f.alloc_num + step_enlarge_num) % 2 ^ 32;
        phy_file_idx = λ k. if ltb k f.cur_num then f.phy_file_idx k else 0;
      }
      else f
    else record {
      allocated = true;
      phy_file_idx = λ k. 0;
      alloc_num = step_enlarge_num;
      cur_num = 0;
    }

-- Gives the next logical file the physical file `i`.
unfoldable pub add_file : ℕ → LogicFileIndex → LogicFileIndex
unfolding resize_logic_file_index inc32
add_file i f =
    let g = resize_logic_file_index f in
    record g {
      phy_file_idx = λ k. if g.cur_num == k then i else g.phy_file_idx k;
      cur_num = inc32 g.cur_num;
    }

abbrev pub set_file : ℕ → LogicFileIndex → (ℕ → LogicFileIndex) → ℕ → LogicFileIndex
set_file t f files u = if t == u then f else files u

-- The end of Open's loop over the index: an invalid file type, a read behind the buffer, no free
-- entry, or the map and the first free entry.
pub data Scanned : Type 0 where
  bad_type overrun all_used : Scanned
  free_at : (ℕ → LogicFileIndex) → ℕ → Scanned

-- The loop from the entry `i` on, `n` entries left, in a buffer of `size` bytes of the device.
unfoldable pub scan_index : (ℕ → ℕ) → ℕ → ℕ → ℕ → (ℕ → LogicFileIndex) → Scanned
unfolding add_file entry_at
scan_index f size zero i files = all_used
scan_index f size (suc n) i files =
    let t = (entry_at f i).logic_file_type in
    let rest = scan_index f size n (i + 1) (set_file t (add_file i (files t)) files) in
    if ltb size (8 * i + 8)
    then overrun
    else if leb max_file_type t
    then bad_type
    else if t == 0
    then free_at files i
    else rest

-- The map after memset.
abbrev pub no_files : ℕ → LogicFileIndex
no_files t = record { allocated = false; phy_file_idx = λ k. 0; alloc_num = 0; cur_num = 0 }

-- The size of the index, of 8 bytes an entry, rounded up to DEF_MEM_ALIGN_SIZE (512) in 32 bits.
unfoldable pub index_size : VbfsConfigParam → ℕ
index_size param = (8 * param.file_num + 511) / 512 * 512 % 2 ^ 32

-- Open returns -1, reads memory that was never written or is not its own, or gives the volume.
pub data Opening : Type 0 where
  failed fault : Opening
  ready : RawVbfs → Opening

-- Open on a readable device. Without a free entry m_nStartFreePhyFileIdx is not set, and the sector is
-- copied from a place computed from it. With one, the sector is in the buffer, whose size is a
-- multiple of a sector.
unfoldable pub open_raw : Device → VbfsConfigParam → Opening
unfolding scan_index index_size entry_at
open_raw device param =
    elim (scan_index device.bytes (index_size param) param.file_num 0 no_files) [
      | bad_type ↦ failed
      | overrun ↦ fault
      | all_used ↦ fault
      | free_at files i ↦ ready (record {
        device = device;
        start_free_phy_file_idx = i;
        first_phy_file_offset = index_size param;
        logic_file_idx = files;
        sector = λ j. entry_at device.bytes (round_down i + j);
        param = param;
      })
    ]

-- The address of an offset in a physical file.
unfoldable pub address : RawVbfs → ℕ → ℕ → ℕ
address v phy offset = (v.first_phy_file_offset + v.param.file_size * phy + offset) % 2 ^ 64

-- The physical file of a logical one, none for an id that is not allocated.
unfoldable pub phy_file : ℕ → ℕ → RawVbfs → Option ℕ
phy_file t id v =
    let f = v.logic_file_idx t in if ltb id f.cur_num then some (f.phy_file_idx id) else none

-- Read of `size` bytes; none is -1.
unfoldable pub read : Bool → ℕ → ℕ → ℕ → ℕ → RawVbfs → Option (List ℕ)
unfolding phy_file address read_bytes
read success t id size offset v = elim (phy_file t id v) [
  | some phy ↦
      if success then some (read_bytes v.device.bytes (address v phy offset) size) else none
  | none ↦ none
]

-- Write; the Bool tells whether it returned 0.
unfoldable pub write : Bool → ℕ → ℕ → List ℕ → ℕ → RawVbfs → RawVbfs × Bool
unfolding phy_file address write_bytes
write success t id buf offset v = elim (phy_file t id v) [
  | some phy ↦
      if success
      then (
        record v {
          device = record { bytes = write_bytes (address v phy offset) buf v.device.bytes };
        },
        true,
      )
      else (v, false)
  | none ↦ (v, false)
]

-- The sector with the entry of the newly allocated file.
unfoldable pub new_sector : ℕ → PhyFileIndex → (ℕ → PhyFileIndex) → ℕ → PhyFileIndex
new_sector n e sector j =
    if n == j
    then e
    else if n == 0
    then record { logic_file_type = 0; logic_file_id = 0 }
    else sector j

-- The branch of AllocatFile for the next file id.
unfoldable pub add_next : Bool → ℕ → ℕ → RawVbfs → RawVbfs × IoResult
unfolding add_file inc32 new_sector write_entries
add_next success t id v =
    let i = v.start_free_phy_file_idx in
    let at = round_down i in
    let sector =
      new_sector (i - at) (record { logic_file_type = t; logic_file_id = id }) v.sector in
    let moved = record v {
      logic_file_idx = set_file t (add_file i (v.logic_file_idx t)) v.logic_file_idx;
      sector = sector;
      start_free_phy_file_idx = inc32 i;
    } in
    if success
    then (record moved { device = record { bytes = write_entries at sector v.device.bytes } }, ok)
    else (moved, disk_error)

unfoldable pub allocat_file : Bool → ℕ → ℕ → RawVbfs → RawVbfs × IoResult
unfolding add_next
allocat_file success t id v =
    if ltb v.start_free_phy_file_idx v.param.file_num
    then if id == (v.logic_file_idx t).cur_num
      then add_next success t id v
      else if ltb id (v.logic_file_idx t).cur_num
      then (v, ok)
      else (v, logic_error)
    else (v, disk_full)
