-- ===== src/Vbfs/Raw/Files.antt =====
-- Read after Write: the files of a well-formed volume do not overlap on the device.
use mathlib.Core.Path.{subst}
use native.Mathlib.Nat.{mod-eq_of_lt}
use vorder.Base.{
  ℕ, ◌+◌, ◌*◌, ◌^◌, ◌≤◌, ◌<◌, ◌≡◌, ◌≢◌, refl, sym, ap, ◌∙◌, ◌⊎◌, inl, inr, Bool, true, some, List,
  ltb, leb, arith, length, Bool-cases, Option-cases,
}
use vorder.Vbfs.Device.{write_bytes, read_bytes-write_bytes_self, read_bytes-write_bytes_apart}
use vorder.Vbfs.Raw.{RawVbfs, index_size, phy_file, address, read, write}
use vorder.Vbfs.Raw.Count.{count, count_find, Maps}
use vorder.Vbfs.Raw.Allocate.{IsVolume, IsIndex, IsSector, volume_index}
use vorder.Vbfs.Entries.{entry_at-write_bytes}

-- The physical files end below 2 ^ 64.
pub record IsAddressable (v : RawVbfs) : Type 0 where
  pub below : v.first_phy_file_offset + v.param.file_size * v.param.file_num ≤ 2 ^ 64

-- A file of the map is in use, and its index entry leads back to it.
pub phy_file_found :
    (t id phy : ℕ) (v : RawVbfs)
    → IsVolume v
    → phy_file t id v ≡ some phy
    → (phy < v.start_free_phy_file_idx)
      × ((volume_index v phy).logic_file_type ≡ t)
      × (count t (volume_index v) phy ≡ id)
unfolding phy_file
phy_file_found t id phy v h e =
    let used : id < (v.logic_file_idx t).cur_num = ground arith in
    let (i, p, type, c) =
      count_find t id (volume_index v) v.start_free_phy_file_idx (omega (arith, h.maps.cur_eq t)) in
    let at : (v.logic_file_idx t).phy_file_idx id ≡ i =
      ap (v.logic_file_idx t).phy_file_idx (sym c)
      ∙ subst (λ (u : ℕ). (v.logic_file_idx u).phy_file_idx (count u (volume_index v) i) ≡ i) type
          (h.maps.phy_eq i p) in
    let same : i ≡ phy = ground (arith, at) in
    (
      ground (arith, same),
      subst (λ (j : ℕ). (volume_index v j).logic_file_type ≡ t) same type,
      subst (λ (j : ℕ). count t (volume_index v) j ≡ id) same c,
    )

-- A range of a file is in the file.
abbrev pub InFile : RawVbfs → ℕ → ℕ → Type 0
InFile v offset size = offset + size ≤ v.param.file_size

pub address_lem :
    (v : RawVbfs) (phy offset size : ℕ)
    → IsAddressable v
    → phy < v.param.file_num
    → InFile v offset size
    → 0 < size
    → address v phy offset ≡ v.first_phy_file_offset + v.param.file_size * phy + offset
unfolding address
address_lem v phy offset size a p i pos =
    let m : v.param.file_size * (phy + 1) ≤ v.param.file_size * v.param.file_num = grind arith in
    let e : v.param.file_size * (phy + 1) ≡ v.param.file_size * phy + v.param.file_size =
      grind arith in
    mod-eq_of_lt (omega (arith, a.below, e, m))

files_apart : (size a b x y n k : ℕ) → a < b → x + n ≤ size → size * a + x + n ≤ size * b + y
files_apart size a b x y n k h i =
    let m : size * (a + 1) ≤ size * b = grind arith in
    let e : size * (a + 1) ≡ size * a + size = grind arith in omega arith

-- The ranges of two accesses, of the file `id` of type `t` and of the file `k` of type `u`, do not
-- meet.
abbrev pub Apart : (t id offset size u k at n : ℕ) → Type 0
Apart t id offset size u k at n = (t ≢ u) ⊎ ((id ≢ k) ⊎ ((at + n ≤ offset) ⊎ (offset + size ≤ at)))

module _ (v : RawVbfs) (h : IsVolume v) (a : IsAddressable v) where
  addresses-Apart :
      (t id phy offset size u k other at n : ℕ)
      → phy_file t id v ≡ some phy
      → phy_file u k v ≡ some other
      → InFile v offset size
      → InFile v at n
      → 0 < size
      → 0 < n
      → Apart t id offset size u k at n
      → (address v other at + n ≤ address v phy offset)
        ⊎ (address v phy offset + size ≤ address v other at)
  addresses-Apart t id phy offset size u k other at n e f i j p q apart =
      let (pb, pt, pc) = phy_file_found t id phy v h e in
      let (ob, ot, oc) = phy_file_found u k other v h f in
      let ep = address_lem v phy offset size a (omega (arith, h.start_le)) i p in
      let eo = address_lem v other at n a (omega (arith, h.start_le)) j q in
      let z = v.param.file_size in
      elim (Bool-cases (ltb phy other)) [
        | inl less ↦
            let m = files_apart z phy other offset at size 0 (ground arith) i in
            inr (omega (arith, ep, eo, m))
        | inr ge ↦ elim (Bool-cases (ltb other phy)) [
          | inl more ↦
              let m = files_apart z other phy at offset n 0 (ground arith) j in
              inl (omega (arith, ep, eo, m))
          | inr le ↦
              let same : phy ≡ other = ground arith in
              let t_eq : t ≡ u =
                sym pt ∙ ap (λ (x : ℕ). (volume_index v x).logic_file_type) same ∙ ot in
              let id_eq : id ≡ k =
                sym pc
                ∙ ap (count t (volume_index v)) same
                ∙ ap (λ (x : ℕ). count x (volume_index v) other) t_eq
                ∙ oc in
              let base = ap (λ (x : ℕ). z * x) same in
              elim apart [
                | inl x ↦ absurd (x t_eq)
                | inr y ↦ elim y [
                  | inl x ↦ absurd (x id_eq)
                  | inr y' ↦ elim y' [
                    | inl x ↦ inl (omega (arith, ep, eo, base))
                    | inr x ↦ inr (omega (arith, ep, eo, base))
                  ]
                ]
              ]
        ]
      ]

  -- The volume with `buf` written into a physical file.
  written : ℕ → ℕ → List ℕ → RawVbfs
  written phy offset buf = record v {
    device = record { bytes = write_bytes (address v phy offset) buf v.device.bytes };
  }

  write_found :
      (t id phy offset : ℕ) (buf : List ℕ)
      → phy_file t id v ≡ some phy
      → write true t id buf offset v ≡ (written phy offset buf, true)
  unfolding write written
  write_found t id phy offset buf e = ground arith

  -- Data do not reach the index.
  volume_index-written :
      (t id phy offset : ℕ) (buf : List ℕ) (k : ℕ)
      → phy_file t id v ≡ some phy
      → InFile v offset (length buf)
      → 0 < length buf
      → volume_index v k ≡ volume_index (written phy offset buf) k
  unfolding written volume_index
  volume_index-written t id phy offset buf k e i pos =
      let (used, type, number) = phy_file_found t id phy v h e in
      let at = address_lem v phy offset (length buf) a (omega (arith, h.start_le)) i pos in
      elim (Bool-cases (leb (8 * k + 8) (index_size v.param))) [
        | inr behind ↦ ground (arith, behind)
        | inl inside ↦
            let low : 8 * k + 8 ≤ index_size v.param = ground arith in
            let kept =
              entry_at-write_bytes (address v phy offset) k buf v.device.bytes
                (omega (arith, at, h.placed, low)) in
            ground (arith, inside, kept)
      ]

  written-IsVolume :
      (t id phy offset : ℕ) (buf : List ℕ)
      → phy_file t id v ≡ some phy
      → InFile v offset (length buf)
      → 0 < length buf
      → IsVolume (written phy offset buf)
  unfolding written
  written-IsVolume t id phy offset buf e i pos =
      let same : volume_index v ≡ volume_index (written phy offset buf) =
        λ n k. volume_index-written t id phy offset buf k e i pos n in
      record {
        small = h.small;
        start_le = h.start_le;
        placed = h.placed;
        index_ok = subst (λ x. IsIndex x v.start_free_phy_file_idx) same h.index_ok;
        sector_ok = subst (λ x. IsSector x v.sector v.start_free_phy_file_idx) same h.sector_ok;
        maps = subst (λ x. Maps x v.start_free_phy_file_idx v.logic_file_idx) same h.maps;
      }

  read-written_self :
      (t id phy offset : ℕ) (buf : List ℕ)
      → phy_file t id v ≡ some phy
      → read true t id (length buf) offset (written phy offset buf) ≡ some buf
  unfolding read written
  read-written_self t id phy offset buf e =
      ground (arith, read_bytes-write_bytes_self v.device.bytes (address v phy offset) buf)

  read-written-Apart :
      (t id phy offset : ℕ) (buf : List ℕ) (u k at n : ℕ)
      → phy_file t id v ≡ some phy
      → InFile v offset (length buf)
      → 0 < length buf
      → InFile v at n
      → 0 < n
      → Apart t id offset (length buf) u k at n
      → read true u k n at (written phy offset buf) ≡ read true u k n at v
  unfolding read written
  read-written-Apart t id phy offset buf u k at n e i p j q apart =
      elim (Option-cases (phy_file u k v)) [
        | inl missing ↦ ground (arith, missing)
        | inr (other, f) ↦
            let bounds =
              addresses-Apart t id phy offset (length buf) u k other at n e f i j p q apart in
            let same =
              read_bytes-write_bytes_apart v.device.bytes (address v other at) n
                (address v phy offset) buf bounds in
            ground (arith, f, same)
      ]

  pub write-IsVolume :
      (t id offset : ℕ) (buf : List ℕ)
      → InFile v offset (length buf)
      → 0 < length buf
      → let w = (write true t id buf offset v).0 in
        IsVolume w × (w.param ≡ v.param) × (w.first_phy_file_offset ≡ v.first_phy_file_offset)
  unfolding written
  write-IsVolume t id offset buf i pos = elim (Option-cases (phy_file t id v)) [
    | inl missing ↦
        let same : (write true t id buf offset v).0 ≡ v = unfold write in ground (arith, missing) in
        rw same (h, refl, refl)
    | inr (phy, e) ↦
        let wrote = ap (λ (r : RawVbfs × Bool). r.0) (write_found t id phy offset buf e) in
        rw wrote (written-IsVolume t id phy offset buf e i pos, refl, refl)
  ]

  -- A successful Write of a non-empty range inside a file, on a well-formed volume whose files lie
  -- below 2 ^ 64: the volume stays well-formed, the range reads back what was written, and so does
  -- as before every non-empty range inside a file that does not meet it, of this or another file.
  pub write-read :
      (t id offset : ℕ) (buf : List ℕ)
      → InFile v offset (length buf)
      → 0 < length buf
      → (write true t id buf offset v).1 ≡ true
      → let w = (write true t id buf offset v).0 in
        IsVolume w
        × (read true t id (length buf) offset w ≡ some buf)
        × ((u k at n : ℕ)
            → InFile v at n
            → 0 < n
            → Apart t id offset (length buf) u k at n
            → read true u k n at w ≡ read true u k n at v)
  write-read t id offset buf i pos done = elim (Option-cases (phy_file t id v)) [
    | inl missing ↦ absurd (unfold write in ground (arith, missing))
    | inr (phy, e) ↦
        let wrote = ap (λ (r : RawVbfs × Bool). r.0) (write_found t id phy offset buf e) in
        rw wrote (
          written-IsVolume t id phy offset buf e i pos,
          read-written_self t id phy offset buf e,
          λ u k at n j q apart. read-written-Apart t id phy offset buf u k at n e i pos j q apart,
        )
  ]
