-- ===== src/Vbfs/Raw/Grown.antt =====
-- AllocatFile of a raw device leaves what the files hold.
use vorder.Base.{
  ℕ, ◌+◌, ◌*◌, ◌%◌, ◌^◌, ◌<◌, ◌≤◌, ◌≡◌, refl, ltb, leb, ltb→lt, false, ap, ◌∙◌, inl, inr, true,
  false, some, List, ◌&&◌, ◌==◌, arith, Bool-cases, Option-cases, ==_iff,
}
use vorder.Vbfs.Device.{VbfsConfigParam, read_bytes, read_bytes_cong, write_entries}
use vorder.Vbfs.Raw.{RawVbfs, read, phy_file, address, allocat_file, add_next, round_down}
use vorder.Vbfs.Raw.Allocate.{IsVolume, allocat_file-IsVolume, index_size-ge}
use vorder.Vbfs.Raw.Files.{IsAddressable, InFile, phy_file_found, address_lem}

behind_write : (at a : ℕ) → at + 512 ≤ a → (leb at a && ltb a (at + 512)) ≡ false
behind_write at a h = ground arith

add_next-keeps :
    (t id : ℕ) (v : RawVbfs) (a : ℕ)
    → IsVolume v
    → v.start_free_phy_file_idx < v.param.file_num
    → v.first_phy_file_offset ≤ a
    → (add_next true t id v).0.device.bytes a ≡ v.device.bytes a
unfolding add_next write_entries
add_next-keeps t id v a h space p =
    let inside = index_size-ge v.param v.start_free_phy_file_idx h.small space in
    let out : (leb (8 * round_down v.start_free_phy_file_idx) a
          && ltb a (8 * round_down v.start_free_phy_file_idx + 512))
        ≡ false =
      behind_write (8 * round_down v.start_free_phy_file_idx) a
        (omega (arith, inside, h.placed, p)) in
    rw out refl

allocat_file_sizes :
    (t id : ℕ) (v : RawVbfs)
    → let w = (allocat_file true t id v).0 in
      (w.param ≡ v.param) × (w.first_phy_file_offset ≡ v.first_phy_file_offset)
unfolding allocat_file add_next
allocat_file_sizes t id v = (ground arith, ground arith)

-- AllocatFile writes only the index.
pub allocat_file-keeps :
    (t id : ℕ) (v : RawVbfs)
    → IsVolume v
    → let w = (allocat_file true t id v).0 in
      (w.param ≡ v.param)
      × (w.first_phy_file_offset ≡ v.first_phy_file_offset)
      × ((a : ℕ) → v.first_phy_file_offset ≤ a → w.device.bytes a ≡ v.device.bytes a)
unfolding allocat_file
allocat_file-keeps t id v h = (
  (allocat_file_sizes t id v).0,
  (allocat_file_sizes t id v).1,
  λ a p. elim (Bool-cases (ltb v.start_free_phy_file_idx v.param.file_num)) [
    | inr full ↦ rw full refl
    | inl space ↦
        let kept =
          add_next-keeps t id v a h (ltb→lt v.start_free_phy_file_idx v.param.file_num space) p in
        ground (arith, space, kept)
  ],
)

phy_file_in :
    (t k phy : ℕ) (v : RawVbfs) → phy_file t k v ≡ some phy → k < (v.logic_file_idx t).cur_num
unfolding phy_file
phy_file_in t k phy v e = ground arith

new_file :
    (t id u k : ℕ) (v : RawVbfs)
    → k < (v.logic_file_idx u).cur_num
    → (id == (v.logic_file_idx t).cur_num && (t == u && id == k)) ≡ false
new_file t id u k v inside = elim (Bool-cases (t == u)) [
  | inr other ↦ ground arith
  | inl same ↦
      let nums = ap (λ (x : ℕ). (v.logic_file_idx x).cur_num) ((==_iff t u).0 same) in
      ground (arith, nums)
]

-- What Read depends on.
read_same :
    (u k n at phy : ℕ) (v w : RawVbfs)
    → phy_file u k v ≡ some phy
    → phy_file u k w ≡ some phy
    → w.param ≡ v.param
    → w.first_phy_file_offset ≡ v.first_phy_file_offset
    → v.first_phy_file_offset ≤ address v phy at
    → ((a : ℕ) → v.first_phy_file_offset ≤ a → w.device.bytes a ≡ v.device.bytes a)
    → read true u k n at w ≡ read true u k n at v
unfolding read
read_same u k n at phy v w f e same first low bytes =
    let size = ap (λ (q : VbfsConfigParam). q.file_size * phy) same in
    let address_eq : address w phy at ≡ address v phy at =
      unfold address in ap (λ (a : ℕ). (a + at) % 2 ^ 64) (ground (arith, first, size)) in
    let range : read_bytes w.device.bytes (address w phy at) n
        ≡ read_bytes v.device.bytes (address v phy at) n =
      ap (λ (a : ℕ). read_bytes w.device.bytes a n) address_eq
      ∙ read_bytes_cong w.device.bytes v.device.bytes (address v phy at) n
          (λ a p q. bytes a (omega (arith, low, p))) in
    ground (arith, f, e, range)

-- AllocatFile leaves the files that there are.
pub allocat_file-read :
    (t id u k n at : ℕ) (v : RawVbfs) (c : List ℕ)
    → IsVolume v
    → IsAddressable v
    → InFile v at n
    → 0 < n
    → 0 < t
    → t < 8
    → read true u k n at v ≡ some c
    → read true u k n at (allocat_file true t id v).0 ≡ some c
allocat_file-read t id u k n at v c h a range pos low high e =
    elim (Option-cases (phy_file u k v)) [
      | inl missing ↦ absurd (unfold read in ground (arith, missing))
      | inr (phy, f) ↦
          let (same, first, bytes) = allocat_file-keeps t id v h in
          let files = (allocat_file-IsVolume t id v h low high).2 u k in
          let inside = phy_file_in u k phy v f in
          let new : (id == (v.logic_file_idx t).cur_num && (t == u && id == k)) ≡ false =
            new_file t id u k v inside in
          let there : phy_file u k (allocat_file true t id v).0 ≡ some phy =
            ground (arith, files, new, f) in
          let (used, type, number) = phy_file_found u k phy v h f in
          let place = address_lem v phy at n a (omega (arith, used, h.start_le)) range pos in
          read_same u k n at phy v (allocat_file true t id v).0 f there same first
            (omega (arith, place)) bytes
          ∙ e
    ]
