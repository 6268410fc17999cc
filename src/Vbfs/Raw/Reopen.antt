-- ===== src/Vbfs/Raw/Reopen.antt =====
-- Open on the device that a well-formed volume leaves: the memory is rebuilt from the index.
use mathlib.Core.Path.{subst}
use vorder.Base.{
  ℕ, zero, suc, ◌+◌, ◌*◌, false, ◌≤◌, ◌<◌, ◌^◌, ◌≡◌, refl, sym, ap, ◌∙◌, inl, inr, true, ◌==◌, ltb,
  arith, Bool-cases, ==_iff,
}
use vorder.Vbfs.Device.{PhyFileIndex, entry_at}
use vorder.Vbfs.Raw.{
  RawVbfs, LogicFileIndex, no_files, set_file, add_file, scan_index, Scanned, all_used, free_at,
  ready, fault, open_raw, phy_file, index_size, round_down, read, address,
}
use vorder.Vbfs.Raw.Count.{count, count_find, Maps}
use vorder.Vbfs.Raw.Index.{Maps-add_file}
use vorder.Vbfs.Raw.Allocate.{IsVolume, volume_index, index_size-ge}

pub no_files-Maps : (index : ℕ → PhyFileIndex) → Maps index 0 no_files
unfolding count
no_files-Maps index = record {
  cur_eq = λ t. refl;
  phy_eq = λ i p. elim p [ ];
  room = λ t. record { within = λ e. absurd (cc); empty = λ e. refl };
}

-- What the scan finds: the map of the entries in use, up to the first free one.
record Scans (index : ℕ → PhyFileIndex) (start last : ℕ) (r : Scanned) : Type 0 where
  full : last ≤ start → r ≡ all_used
  free :
      start < last
      → (found : ℕ → LogicFileIndex) × (r ≡ free_at found start) × Maps index start found

volume_index_in :
    (v : RawVbfs) (i : ℕ)
    → 8 * v.param.file_num + 511 < 2 ^ 32
    → i < v.param.file_num
    → (ltb (index_size v.param) (8 * i + 8) ≡ false)
      × (volume_index v i ≡ entry_at v.device.bytes i)
unfolding volume_index
volume_index_in v i small p =
    let fits : 8 * i + 8 ≤ index_size v.param = omega (arith, index_size-ge v.param i small p) in
    (ground arith, ground arith)

scan_index-Scans :
    (v : RawVbfs) (n i : ℕ) (files : ℕ → LogicFileIndex)
    → IsVolume v
    → i ≤ v.start_free_phy_file_idx
    → i + n ≡ v.param.file_num
    → Maps (volume_index v) i files
    → Scans
        (volume_index v)
        v.start_free_phy_file_idx
        v.param.file_num
        (scan_index v.device.bytes (index_size v.param) n i files)
unfolding scan_index
scan_index-Scans v zero i files h low at m = record {
  full = λ p. refl;
  free = λ p. absurd (omega arith);
}
scan_index-Scans v (suc n) i files h low at m =
    let start = v.start_free_phy_file_idx in
    let index = volume_index v in
    let (inside, entry) = volume_index_in v i h.small (omega arith) in
    elim (Bool-cases (i == start)) [
      | inl here ↦
          let same : i ≡ start = (==_iff i start).0 here in
          let free : (entry_at v.device.bytes i).logic_file_type ≡ 0 =
            ap (λ (e : PhyFileIndex). e.logic_file_type)
              (sym entry ∙ h.index_ok.free i (omega arith)) in
          record {
            full = λ p. absurd (omega arith);
            free = λ p. (
              files,
              ground (arith, inside, free, same),
              subst (λ (s : ℕ). Maps index s files) same m,
            );
          }
      | inr later ↦
          let p : i < start = ground arith in
          let t = (entry_at v.device.bytes i).logic_file_type in
          let type = ap (λ (e : PhyFileIndex). e.logic_file_type) entry in
          let (pos, bound) = h.index_ok.used i p in
          let e : suc i ≡ i + 1 = omega arith in
          let next : Maps index (i + 1) (set_file t (add_file i (files t)) files) =
            subst (λ (s : ℕ). Maps index s (set_file t (add_file i (files t)) files)) e
              (Maps-add_file index i t files m (omega (arith, h.small, h.start_le)) type) in
          let rest =
            scan_index-Scans v n (i + 1) (set_file t (add_file i (files t)) files) h (omega arith)
              (omega arith) next in
          let step : scan_index v.device.bytes (index_size v.param) (suc n) i files
              ≡ scan_index v.device.bytes (index_size v.param) n (i + 1)
                  (set_file t (add_file i (files t)) files) =
            ground (arith, inside, type, pos, bound) in
          subst (Scans index start v.param.file_num) (sym step) rest
    ]

-- Two maps of one index agree.
Maps-unique :
    (index : ℕ → PhyFileIndex) (n t k : ℕ) (f g : ℕ → LogicFileIndex)
    → Maps index n f
    → Maps index n g
    → ((f t).cur_num ≡ (g t).cur_num)
      × (k < (f t).cur_num → (f t).phy_file_idx k ≡ (g t).phy_file_idx k)
Maps-unique index n t k f g a b = (
  a.cur_eq t ∙ sym (b.cur_eq t),
  λ h.
      let (i, p, e, c) = count_find t k index n (omega (arith, a.cur_eq t)) in
      let at : (x : ℕ → LogicFileIndex) → Maps index n x → (x t).phy_file_idx k ≡ i = λ x m.
        ap (λ (j : ℕ). (x t).phy_file_idx j) (sym c)
        ∙ subst (λ (u : ℕ). (x u).phy_file_idx (count u index i) ≡ i) e (m.phy_eq i p) in
      at f a ∙ sym (at g b),
)

-- The memory after Open.
opened : RawVbfs → (ℕ → LogicFileIndex) → RawVbfs
unfolding index_size entry_at
opened v files = record v {
  first_phy_file_offset = index_size v.param;
  logic_file_idx = files;
  sector = λ j. entry_at v.device.bytes (round_down v.start_free_phy_file_idx + j);
}

-- The files, and what they hold, are those before.
opened-same :
    (v : RawVbfs) (files : ℕ → LogicFileIndex) (t id : ℕ)
    → IsVolume v
    → Maps (volume_index v) v.start_free_phy_file_idx files
    → (phy_file t id (opened v files) ≡ phy_file t id v)
      × ((size offset : ℕ)
          → read true t id size offset (opened v files) ≡ read true t id size offset v)
unfolding opened phy_file read address
opened-same v files t id h m =
    let (cur, phy) =
      Maps-unique (volume_index v) v.start_free_phy_file_idx t id files v.logic_file_idx m h.maps in
    let same : phy_file t id (opened v files) ≡ phy_file t id v = ground (arith, cur, phy) in
    (same, λ size offset. ground (arith, cur, phy, h.placed))

-- The sector copied from the buffer is that of the index.
opened-IsSector :
    (v : RawVbfs)
    → IsVolume v
    → v.start_free_phy_file_idx < v.param.file_num
    → (j : ℕ) → j < 64
    → entry_at v.device.bytes (round_down v.start_free_phy_file_idx + j)
      ≡ volume_index v (round_down v.start_free_phy_file_idx + j)
unfolding volume_index
opened-IsSector v h space j small =
    let inside = index_size-ge v.param v.start_free_phy_file_idx h.small space in ground arith

scanned :
    (v : RawVbfs)
    → IsVolume v
    → Scans
        (volume_index v)
        v.start_free_phy_file_idx
        v.param.file_num
        (scan_index v.device.bytes (index_size v.param) v.param.file_num 0 no_files)
scanned v h =
    scan_index-Scans v v.param.file_num 0 no_files h (omega arith) (omega arith)
      (no_files-Maps (volume_index v))

-- Open on the device of a well-formed volume, the size of whose index fits into 32 bits, that has a
-- free physical file: it reads nothing behind its buffer, succeeds, and gives a well-formed volume
-- again, with the same first free physical file, in which every file of every type has the physical
-- file, and reads as, it did.
pub open_raw-IsVolume :
    (v : RawVbfs)
    → IsVolume v
    → v.start_free_phy_file_idx < v.param.file_num
    → (w : RawVbfs) × (open_raw v.device v.param ≡ ready w)
      × IsVolume w
      × (w.start_free_phy_file_idx ≡ v.start_free_phy_file_idx)
      × ((t id : ℕ)
          → (phy_file t id w ≡ phy_file t id v)
            × ((size offset : ℕ) → read true t id size offset w ≡ read true t id size offset v))
unfolding open_raw opened index_size volume_index
open_raw-IsVolume v h space =
    let (files, r, m) = (scanned v h).free space in
    (
      opened v files,
      ground (arith, r),
      record {
        small = h.small;
        start_le = h.start_le;
        placed = refl;
        index_ok = h.index_ok;
        sector_ok = record { same = λ j ne b. opened-IsSector v h space j b };
        maps = m;
      },
      refl,
      λ t id. opened-same v files t id h m,
    )

-- Open on the device of a well-formed volume whose physical files are all in use: no entry of the
-- index sets m_nStartFreePhyFileIdx, so that Open reads a member that was never set and copies a
-- sector from a place computed from it.
pub open_raw_full :
    (v : RawVbfs)
    → IsVolume v
    → v.start_free_phy_file_idx ≡ v.param.file_num
    → open_raw v.device v.param ≡ fault
unfolding open_raw index_size
open_raw_full v h full = let r = (scanned v h).full (omega arith) in ground (arith, r)
