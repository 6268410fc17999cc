-- ===== src/Vbfs/Raw/Allocate.antt =====
-- AllocatFile keeps a raw device well-formed.
use mathlib.Core.Path.{subst}
use vorder.Base.{
  ℕ, suc, ◌+◌, ◌-◌, ◌*◌, ◌/◌, ◌%◌, ◌^◌, ◌≤◌, ◌<◌, ◌≡◌, ◌≢◌, refl, sym, ap, ◌∙◌, inl, inr, true,
  false, some, if◌then◌else◌, ◌==◌, ◌&&◌, ltb, leb, arith, Bool-cases, ==_iff, ltb→lt,
}
use vorder.Vbfs.Entries.{IsEntry, entry_at-IsEntry, entry_at-write_entries}
use vorder.Vbfs.Device.{
  PhyFileIndex, entry_at, VbfsConfigParam, IoResult, ok, disk_full, logic_error,
}
use vorder.Vbfs.Raw.{
  RawVbfs, round_down, inc32, set_file, add_file, phy_file, new_sector, add_next, allocat_file,
  index_size,
}
use vorder.Vbfs.Raw.Count.{count, count-le, count_cong, add_file_lem, Maps}
use vorder.Vbfs.Raw.Index.{Maps-cong, Maps-add_file}

abbrev pub unused : PhyFileIndex
unused = record { logic_file_type = 0; logic_file_id = 0 }

-- The index on the device: physical files in use first, with a valid type and the number of earlier
-- files of the type as their id, then free ones.
pub record IsIndex (index : ℕ → PhyFileIndex) (start : ℕ) : Type 0 where
  pub used : (i : ℕ) → i < start → (0 < (index i).logic_file_type) × ((index i).logic_file_type < 8)
  pub numbered :
      (i : ℕ) → i < start → (index i).logic_file_id ≡ count (index i).logic_file_type index i
  pub free : (i : ℕ) → start ≤ i → index i ≡ unused

-- The sector in memory is that of the first free entry, unless the entry starts a new one.
pub record IsSector (index sector : ℕ → PhyFileIndex) (start : ℕ) : Type 0 where
  pub same : (j : ℕ) → start % 64 ≢ 0 → j < 64 → sector j ≡ index (round_down start + j)

-- The index as Open's buffer holds it, with nothing behind it.
unfoldable pub volume_index : RawVbfs → ℕ → PhyFileIndex
unfolding index_size entry_at
volume_index v k =
    if leb (8 * k + 8) (index_size v.param) then entry_at v.device.bytes k else unused

-- The index after the sector that starts at the entry `at` is written.
write_sector : ℕ → (ℕ → PhyFileIndex) → (ℕ → PhyFileIndex) → ℕ → PhyFileIndex
write_sector at sector index k = if leb at k && ltb k (at + 64) then sector (k - at) else index k

-- A well-formed raw device: the size of the index fits into 32 bits, and the index on the device, the
-- sector and the map in memory agree.
pub record IsVolume (v : RawVbfs) : Type 0 where
  pub small : 8 * v.param.file_num + 511 < 2 ^ 32
  pub start_le : v.start_free_phy_file_idx ≤ v.param.file_num
  pub placed : v.first_phy_file_offset ≡ index_size v.param
  pub index_ok : IsIndex (volume_index v) v.start_free_phy_file_idx
  pub sector_ok : IsSector (volume_index v) v.sector v.start_free_phy_file_idx
  pub maps : Maps (volume_index v) v.start_free_phy_file_idx v.logic_file_idx

pub volume_index-IsEntry : (v : RawVbfs) (k : ℕ) → IsEntry (volume_index v k)
unfolding volume_index
volume_index-IsEntry v k = elim (Bool-cases (leb (8 * k + 8) (index_size v.param))) [
  | inl read ↦ rw read (entry_at-IsEntry v.device.bytes k)
  | inr behind ↦ rw behind (omega arith, omega arith)
]

-- The sector of a physical file is in the index.
pub index_size-ge :
    (param : VbfsConfigParam) (at : ℕ)
    → 8 * param.file_num + 511 < 2 ^ 32
    → at < param.file_num
    → 8 * (at / 64 * 64) + 512 ≤ index_size param
unfolding index_size
index_size-ge param at small h = omega arith

module _ (index sector : ℕ → PhyFileIndex) (n : ℕ) (e : PhyFileIndex) where
  -- Writing the sector with the new entry.
  written : ℕ → PhyFileIndex
  unfolding write_sector new_sector
  written = write_sector (round_down n) (new_sector (n - round_down n) e sector) index

  -- It changes one entry of the index.
  written_lem :
      (k : ℕ)
      → IsSector index sector n
      → ((i : ℕ) → n ≤ i → index i ≡ unused)
      → written k ≡ (if n == k then e else index k)
  unfolding written
  written_lem k s f =
      let at : n - round_down n ≡ n % 64 = omega arith in
      let small : n % 64 < 64 = omega arith in
      let back : round_down n + n % 64 ≡ n = omega arith in
      elim (Bool-cases (leb (round_down n) k && ltb k (round_down n + 64))) [
        | inr out ↦ ground (arith, at, back)
        | inl in_sector ↦
            let there : round_down n + (k - round_down n) ≡ k = ground arith in
            let j_small : k - round_down n < 64 = ground arith in
            let j = k - round_down n in
            elim (Bool-cases (n % 64 == 0)) [
              | inl first ↦ ground (arith, at, back, there, f k)
              | inr later ↦
                  let ne : n % 64 ≢ 0 = ground arith in
                  let old : sector j ≡ index k = s.same j ne j_small ∙ ap index there in
                  ground (arith, at, back, there, old)
            ]
      ]

  written-IsSector : IsSector written (new_sector (n - round_down n) e sector) (suc n)
  unfolding written
  written-IsSector = record {
    same = λ j ne small.
        let same : round_down (suc n) ≡ round_down n = omega arith in
        let back : round_down n + j - round_down n ≡ j = omega arith in
        ground (
          arith,
          same,
          ap (new_sector (n - round_down n) e sector) back,
          ap index (ap (λ (r : ℕ). r + j) same),
        );
  }

-- The index with one more used entry.
IsIndex-suc :
    (f g : ℕ → PhyFileIndex) (n t : ℕ)
    → IsIndex f n
    → 0 < t
    → t < 8
    → ((k : ℕ)
        → g k
          ≡ (if n == k then record { logic_file_type = t; logic_file_id = count t f n } else f k))
    → IsIndex g (suc n)
IsIndex-suc f g n t h low high e =
    let below : (u i : ℕ) → i ≤ n → count u g i ≡ count u f i =
      λ u i p. count_cong u g f i (λ j q. ground (arith, e j)) in
    record {
      used = λ i p. ground (arith, e i, h.used i);
      numbered = λ i p. elim (Bool-cases (n == i)) [
        | inl here ↦
            let at = (==_iff n i).0 here in
            let entry = e i in
            let c = below t n (omega arith) in
            let type : (g i).logic_file_type ≡ t = ground arith in
            let id : (g i).logic_file_id ≡ count t f n = ground arith in
            id ∙ sym c ∙ ap (count t g) at ∙ ap (λ (u : ℕ). count u g i) (sym type)
        | inr old ↦
            let entry : g i ≡ f i = ground (arith, e i) in
            let c = below (g i).logic_file_type i (omega arith) in
            ap (λ (x : PhyFileIndex). x.logic_file_id) entry
            ∙ h.numbered i (ground arith)
            ∙ ap (λ (x : PhyFileIndex). count x.logic_file_type f i) (sym entry)
            ∙ sym c
      ];
      free = λ i p. ground (arith, e i, h.free i);
    }

behind_sector :
    (at k size : ℕ)
    → 8 * at + 512 ≤ size
    → leb (8 * k + 8) size ≡ false
    → (leb at k && ltb k (at + 64)) ≡ false
behind_sector at k size h e =
    let far : at + 64 ≤ k = let more : size < 8 * k + 8 = ground arith in omega arith in
    ground (arith, far)

next_free : (n file_num : ℕ) → file_num + 1024 < 2 ^ 32 → n < file_num → suc n ≡ inc32 n
unfolding inc32
next_free n file_num small space = omega arith

module _ (t id : ℕ) (v : RawVbfs) (h : IsVolume v) (low : 0 < t) (high : t < 8)
    (space : v.start_free_phy_file_idx < v.param.file_num)
    (next : id ≡ (v.logic_file_idx t).cur_num) where
  new_sector-IsEntry :
      (j : ℕ)
      → j < 64
      → IsEntry (
          new_sector
            (v.start_free_phy_file_idx - round_down v.start_free_phy_file_idx)
            (record { logic_file_type = t; logic_file_id = id })
            v.sector
            j)
  unfolding new_sector
  new_sector-IsEntry j small =
      let n = v.start_free_phy_file_idx in
      let m = n - round_down n in
      let fits : id < 2 ^ 32 =
        omega (arith, next, h.maps.cur_eq t, count-le t (volume_index v) n, h.small) in
      elim (Bool-cases (m == j)) [
        | inl new ↦ rw new (omega arith, fits)
        | inr other ↦ elim (Bool-cases (m == 0)) [
          | inl first ↦ rw (other, first) (omega arith, omega arith)
          | inr later ↦
              let ne : n % 64 ≢ 0 = λ e. absurd (ground (arith, e)) in
              let same = h.sector_ok.same j ne small in
              rw (other, later, same) (volume_index-IsEntry v (round_down n + j))
        ]
      ]

  -- The index of the device after the write of the sector.
  volume_index-add_next :
      (k : ℕ)
      → volume_index (add_next true t id v).0 k
        ≡ written
            (volume_index v)
            v.sector
            v.start_free_phy_file_idx
            (record { logic_file_type = t; logic_file_id = id })
            k
  unfolding add_next written write_sector volume_index
  volume_index-add_next k =
      let n = v.start_free_phy_file_idx in
      let at = round_down n in
      let sector =
        new_sector (n - at) (record { logic_file_type = t; logic_file_id = id }) v.sector in
      let inside = index_size-ge v.param n h.small space in
      let entry = entry_at-write_entries at k sector v.device.bytes new_sector-IsEntry in
      elim (Bool-cases (leb (8 * k + 8) (index_size v.param))) [
        | inl read ↦ ground (arith, read, entry)
        | inr behind ↦
            let out = behind_sector at k (index_size v.param) inside behind in
            ground (arith, behind, out)
      ]

  add_next-IsVolume : IsVolume (add_next true t id v).0
  unfolding add_next
  add_next-IsVolume =
      let n = v.start_free_phy_file_idx in
      let index = volume_index v in
      let on_device : written index v.sector n (record { logic_file_type = t; logic_file_id = id })
          ≡ volume_index (add_next true t id v).0 =
        λ i k. sym (volume_index-add_next k) i in
      let entry : PhyFileIndex = record { logic_file_type = t; logic_file_id = id } in
      let g = written index v.sector n entry in
      let changed : (k : ℕ) → g k ≡ (if n == k then entry else index k) =
        λ k. written_lem index v.sector n entry k h.sector_ok h.index_ok.free in
      let number : id ≡ count t index n = next ∙ h.maps.cur_eq t in
      let numbered : (k : ℕ)
          → g k ≡ (
              if n == k
              then record { logic_file_type = t; logic_file_id = count t index n }
              else index k) =
        λ k. ground (arith, changed k, number) in
      let step : suc n ≡ inc32 n = next_free n v.param.file_num (omega (arith, h.small)) space in
      let type : (g n).logic_file_type ≡ t = ground (arith, changed n) in
      let maps : Maps g n v.logic_file_idx =
        Maps-cong index g n v.logic_file_idx (λ i p. ground (arith, changed i)) h.maps in
      record {
        small = h.small;
        start_le = omega (arith, step);
        placed = h.placed;
        index_ok =
            subst (λ x. IsIndex x (inc32 n)) on_device
              (subst (IsIndex g) step (IsIndex-suc index g n t h.index_ok low high numbered));
        sector_ok =
            subst (λ x. IsSector x (new_sector (n - round_down n) entry v.sector) (inc32 n))
              on_device
              (subst (IsSector g (new_sector (n - round_down n) entry v.sector)) step
                (written-IsSector index v.sector n entry));
        maps =
            subst
              (λ x.
                Maps x (inc32 n) (set_file t (add_file n (v.logic_file_idx t)) v.logic_file_idx))
              on_device
              (subst
                (λ (m : ℕ).
                  Maps g m (set_file t (add_file n (v.logic_file_idx t)) v.logic_file_idx))
                step (Maps-add_file g n t v.logic_file_idx maps (omega (arith, h.small)) type));
      }

  -- The new file, and all others as before.
  add_next-phy_file :
      (u k : ℕ)
      → phy_file u k (add_next true t id v).0
        ≡ (if t == u && id == k then some v.start_free_phy_file_idx else phy_file u k v)
  unfolding add_next phy_file
  add_next-phy_file u k =
      let n = v.start_free_phy_file_idx in
      let f = v.logic_file_idx t in
      let bound : f.cur_num + 1024 < 2 ^ 32 =
        omega (arith, h.maps.cur_eq t, count-le t (volume_index v) n, h.small, h.start_le) in
      let (cur, phy, room) = add_file_lem n f (h.maps.room t) bound in
      elim (Bool-cases (t == u)) [
        | inr other ↦ ground arith
        | inl same ↦
            let at = ap v.logic_file_idx ((==_iff t u).0 same) in ground (arith, at, cur, phy k)
      ]

add_next-ok : (t id : ℕ) (v : RawVbfs) → (add_next true t id v).1 ≡ ok
unfolding add_next
add_next-ok t id v = refl

-- AllocatFile on a well-formed raw device, for a valid file type and with the write of the index
-- sector succeeding: the device is well-formed after it; a full device gives the result for it, the
-- id of an allocated file or of the next one gives OK, and a later id a logic error; the next id is
-- given the first free physical file, and every other file, of any type, keeps its physical file.
pub allocat_file-IsVolume :
    (t id : ℕ) (v : RawVbfs)
    → IsVolume v
    → 0 < t
    → t < 8
    → let (w, r) = allocat_file true t id v in
      IsVolume w
      × (r ≡ (
          if ltb v.start_free_phy_file_idx v.param.file_num
          then if leb id (v.logic_file_idx t).cur_num then ok else logic_error
          else disk_full))
      × ((u k : ℕ)
          → phy_file u k w ≡ (
              if ltb v.start_free_phy_file_idx v.param.file_num
                && (id == (v.logic_file_idx t).cur_num && (t == u && id == k))
              then some v.start_free_phy_file_idx
              else phy_file u k v))
unfolding allocat_file
allocat_file-IsVolume t id v h low high =
    elim (Bool-cases (ltb v.start_free_phy_file_idx v.param.file_num)) [
      | inr full ↦ rw (full, allocat_file) (h, refl, λ u k. refl)
      | inl space ↦ elim (Bool-cases (id == (v.logic_file_idx t).cur_num)) [
        | inr other ↦ (ground arith, ground arith, λ u k. ground arith)
        | inl next ↦
            let room = ltb→lt v.start_free_phy_file_idx v.param.file_num space in
            let at = (==_iff id (v.logic_file_idx t).cur_num).0 next in
            let step : allocat_file true t id v ≡ add_next true t id v = ground arith in
            (
              subst (λ (r : RawVbfs × IoResult). IsVolume r.0) (sym step)
                  (add_next-IsVolume t id v h low high room at),
              ground (arith, step, add_next-ok t id v),
              λ u k. ground (arith, step, add_next-phy_file t id v h low high room at u k),
            )
      ]
    ]
