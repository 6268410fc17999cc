-- ===== src/Vbfs/Device.antt =====
-- A block device as pread and pwrite of the operating system show it, bytes under addresses, and the
-- configuration and result codes of vbfs_comm.h. The file index of a raw device is an array of
-- SPhyFileIndex at its start, in the host's layout: two words of four bytes, the lowest byte first.
use vorder.Base.{
  ℕ, zero, suc, ◌+◌, ◌-◌, ◌*◌, ◌/◌, ◌%◌, ◌^◌, ◌==◌, ◌≤◌, ◌<◌, ◌≡◌, refl, sym, ap, ◌∙◌, ◌⊎◌, ◌&&◌,
  List, [], ◌∷◌, if◌then◌else◌, ltb, leb, arith, length, get_or,
}

-- SPhyFileIndex
pub record PhyFileIndex : Type 0 where
  pub logic_file_type : ℕ
  pub logic_file_id : ℕ

pub record Device : Type 0 where
  pub bytes : ℕ → ℕ

-- CVbfsConfigParam
pub record VbfsConfigParam : Type 0 where
  pub file_num : ℕ
  pub file_size : ℕ

-- EN_VBFS_IO_OK, EN_VBFS_IO_DISK_FULL, EN_VBFS_IO_DISK_ERROR and EN_VBFS_IO_LOGIC_ERROR.
pub data IoResult : Type 0 where
  ok disk_full disk_error logic_error : IoResult

abbrev pub max_file_type : ℕ
max_file_type = 8

-- EN_DIRET_IO_PHY_FILE_INDEX_NUM, the entries of a sector.
abbrev pub direct_io_phy_file_index_num : ℕ
direct_io_phy_file_index_num = 64

unfoldable pub read_bytes : (ℕ → ℕ) → ℕ → ℕ → List ℕ
read_bytes f at zero = []
read_bytes f at (suc n) = f at ∷ read_bytes f (at + 1) n

unfoldable pub write_bytes : ℕ → List ℕ → (ℕ → ℕ) → ℕ → ℕ
write_bytes at bs f a = if leb at a && ltb a (at + length bs) then get_or bs (a - at) 0 else f a

pub length-read_bytes : (f : ℕ → ℕ) (at n : ℕ) → length (read_bytes f at n) ≡ n
unfolding read_bytes
length-read_bytes f at zero = refl
length-read_bytes f at (suc n) = ap suc (length-read_bytes f (at + 1) n)

-- Only the bytes of the range matter.
pub read_bytes_cong :
    (f g : ℕ → ℕ) (at n : ℕ)
    → ((a : ℕ) → at ≤ a → a < at + n → f a ≡ g a)
    → read_bytes f at n ≡ read_bytes g at n
unfolding read_bytes
read_bytes_cong f g at zero h = refl
read_bytes_cong f g at (suc n) h =
    let rest = read_bytes_cong f g (at + 1) n (λ a p q. h a (omega arith) (omega arith)) in
    let first = h at (omega arith) (omega arith) in ground (arith, rest, first)

read_bytes_shift :
    (f : ℕ → ℕ) (at : ℕ) (bs : List ℕ)
    → ((k : ℕ) → k < length bs → f (at + k) ≡ get_or bs k 0)
    → read_bytes f at (length bs) ≡ bs
unfolding read_bytes
read_bytes_shift f at [] h = refl
read_bytes_shift f at (b ∷ bs) h =
    let first : f at ≡ b = ap f (omega arith) ∙ h 0 (omega arith) in
    let rest =
      read_bytes_shift f (at + 1) bs (λ k p. ap f (omega arith) ∙ h (suc k) (omega arith)) in
    ground (arith, first, rest)

pub read_bytes-write_bytes_self :
    (f : ℕ → ℕ) (at : ℕ) (bs : List ℕ) → read_bytes (write_bytes at bs f) at (length bs) ≡ bs
unfolding write_bytes
read_bytes-write_bytes_self f at bs = read_bytes_shift (write_bytes at bs f) at bs (λ k p.
    let e : at + k - at ≡ k = omega arith in ground (arith, ap (λ (i : ℕ). get_or bs i 0) e))

-- A range that does not meet the written one.
pub read_bytes-write_bytes_apart :
    (f : ℕ → ℕ) (at n to : ℕ) (bs : List ℕ)
    → (at + n ≤ to) ⊎ (to + length bs ≤ at)
    → read_bytes (write_bytes to bs f) at n ≡ read_bytes f at n
unfolding write_bytes
read_bytes-write_bytes_apart f at n to bs h =
    read_bytes_cong (write_bytes to bs f) f at n (λ a p q. ground arith)

-- A word of the host, at an address and as its byte `r`.
unfoldable pub word_at : (ℕ → ℕ) → ℕ → ℕ
word_at f a =
    f a % 256 + f (a + 1) % 256 * 256 + f (a + 2) % 256 * 65536 + f (a + 3) % 256 * 16777216

unfoldable pub word_byte : ℕ → ℕ → ℕ
word_byte n r =
    if r == 0
    then n % 256
    else if r == 1
    then n / 256 % 256
    else if r == 2
    then n / 65536 % 256
    else n / 16777216 % 256

-- The entry `k` of an array of SPhyFileIndex, of 8 bytes each, and a byte of an entry.
unfoldable pub entry_at : (ℕ → ℕ) → ℕ → PhyFileIndex
unfolding word_at
entry_at f k = record { logic_file_type = word_at f (8 * k); logic_file_id = word_at f (8 * k + 4) }

unfoldable pub entry_byte : PhyFileIndex → ℕ → ℕ
unfolding word_byte
entry_byte e r =
    if ltb r 4 then word_byte e.logic_file_type r else word_byte e.logic_file_id (r - 4)

-- pwrite of the array `entries` of 64 entries to the place of the entry `at`.
unfoldable pub write_entries : ℕ → (ℕ → PhyFileIndex) → (ℕ → ℕ) → ℕ → ℕ
unfolding entry_byte
write_entries at entries f a =
    if leb (8 * at) a && ltb a (8 * at + 512)
    then entry_byte (entries ((a - 8 * at) / 8)) ((a - 8 * at) % 8)
    else f a

pub word_at-word_byte :
    (n a : ℕ) (f : ℕ → ℕ)
    → n < 2 ^ 32
    → f a ≡ word_byte n 0
    → f (a + 1) ≡ word_byte n 1
    → f (a + 2) ≡ word_byte n 2
    → f (a + 3) ≡ word_byte n 3
    → word_at f a ≡ n
unfolding word_at word_byte
word_at-word_byte n a f small p q r s = omega (arith, p, q, r, s)

pub word_at-lt : (f : ℕ → ℕ) (a : ℕ) → word_at f a < 2 ^ 32
unfolding word_at
word_at-lt f a = omega arith

pub word_at_cong :
    (f g : ℕ → ℕ) (a : ℕ) → ((r : ℕ) → r < 4 → f (a + r) ≡ g (a + r)) → word_at f a ≡ word_at g a
unfolding word_at
word_at_cong f g a h =
    let z : a + 0 ≡ a = omega arith in
    let e : f a ≡ g a = ap f (sym z) ∙ h 0 (omega arith) ∙ ap g z in
    ground (arith, e, h 1, h 2, h 3)
