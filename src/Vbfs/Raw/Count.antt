-- ===== src/Vbfs/Raw/Count.antt =====
-- The map from logical to physical files against the index on the device: the files of a type are
-- numbered in the order of their physical files.
use vorder.Base.{
  ℕ, zero, suc, ◌+◌, ◌≤◌, ◌<◌, ◌^◌, ◌≡◌, refl, true, false, if◌then◌else◌, ◌==◌, ltb, arith,
  Bool-cases, inl, inr, ==_iff,
}
use vorder.Vbfs.Device.{PhyFileIndex}
use vorder.Vbfs.Raw.{LogicFileIndex, resize_logic_file_index, add_file, inc32}

-- How many of the first `n` physical files belong to files of type `t`.
unfoldable pub count : ℕ → (ℕ → PhyFileIndex) → ℕ → ℕ
count t index zero = 0
count t index (suc n) = count t index n + (if (index n).logic_file_type == t then 1 else 0)

pub count-le : (t : ℕ) (index : ℕ → PhyFileIndex) (n : ℕ) → count t index n ≤ n
unfolding count
count-le t index zero = omega arith
count-le t index (suc n) = ground (arith, count-le t index n)

pub count_cong :
    (t : ℕ) (f g : ℕ → PhyFileIndex) (n : ℕ)
    → ((i : ℕ) → i < n → f i ≡ g i)
    → count t f n ≡ count t g n
unfolding count
count_cong t f g zero h = refl
count_cong t f g (suc n) h = ground (arith, h n, count_cong t f g n (λ i p. h i (omega arith)))

pub count_mono :
    (t : ℕ) (index : ℕ → PhyFileIndex) (i n : ℕ)
    → (index i).logic_file_type ≡ t
    → i < n
    → count t index i < count t index n
unfolding count
count_mono t index i zero e h = elim h [ ]
count_mono t index i (suc n) e h = elim (Bool-cases (i == n)) [
  | inl same ↦ ground (arith, (==_iff i n).0 same)
  | inr less ↦ ground (arith, count_mono t index i n e (ground arith))
]

-- The physical file of the `k`-th file of a type.
pub count_find :
    (t k : ℕ) (index : ℕ → PhyFileIndex) (n : ℕ)
    → k < count t index n
    → (i : ℕ) × (i < n) × ((index i).logic_file_type ≡ t) × (count t index i ≡ k)
unfolding count
count_find t k index zero h = absurd (omega arith)
count_find t k index (suc n) h = elim (Bool-cases (ltb k (count t index n))) [
  | inl old ↦ let (i, b, e, c) = count_find t k index n (ground arith) in (i, omega arith, e, c)
  | inr new ↦ (n, omega arith, ground arith, ground arith)
]

-- What is used of an array lies in what is allocated.
pub record HasRoom (f : LogicFileIndex) : Type 0 where
  pub within : f.allocated ≡ true → f.cur_num ≤ f.alloc_num
  pub empty : f.allocated ≡ false → f.cur_num ≡ 0

-- After ResizeLogicFileIndex there is room for one more file, and the files are those before.
pub resize_logic_file_index-HasRoom :
    (f : LogicFileIndex)
    → HasRoom f
    → f.cur_num + 1024 < 2 ^ 32
    → let g = resize_logic_file_index f in
      (g.allocated ≡ true)
      × (g.cur_num < g.alloc_num)
      × (g.cur_num ≡ f.cur_num)
      × ((k : ℕ) → k < f.cur_num → g.phy_file_idx k ≡ f.phy_file_idx k)
unfolding resize_logic_file_index
resize_logic_file_index-HasRoom f r small =
    (ground arith, ground arith, ground arith, λ k h. ground arith)

pub add_file_lem :
    (i : ℕ) (f : LogicFileIndex)
    → HasRoom f
    → f.cur_num + 1024 < 2 ^ 32
    → ((add_file i f).cur_num ≡ f.cur_num + 1)
      × ((k : ℕ)
          → k < f.cur_num + 1
          → (add_file i f).phy_file_idx k ≡ (if f.cur_num == k then i else f.phy_file_idx k))
      × HasRoom (add_file i f)
unfolding add_file inc32
add_file_lem i f r small =
    let (a, room, same, old) = resize_logic_file_index-HasRoom f r small in
    (
      ground arith,
      λ k h. ground (arith, old k),
      record { within = λ e. ground arith; empty = λ e. ground arith },
    )

-- The map `files` is that of the first `n` entries of the index.
pub record Maps (index : ℕ → PhyFileIndex) (n : ℕ) (files : ℕ → LogicFileIndex) : Type 0 where
  pub cur_eq : (t : ℕ) → (files t).cur_num ≡ count t index n
  pub phy_eq :
      (i : ℕ)
      → i < n
      → (files (index i).logic_file_type).phy_file_idx (count (index i).logic_file_type index i) ≡ i
  pub room : (t : ℕ) → HasRoom (files t)
