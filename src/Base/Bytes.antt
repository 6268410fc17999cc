-- ===== src/Base/Bytes.antt =====
-- Memory buffers as lists: reading and overwriting a range, as memcpy does.
use Prim.Native.Nat.{ℕ, zero, suc, ◌+◌, ◌≤◌}
use mathlib.Core.Path.{◌≡◌, refl, ap}
use mathlib.Core.List.{List, [], ◌∷◌}
use native.Mathlib.Omega.{arith}
use vorder.Base.Lists.{length, take, drop}

module _ {ℓ} {A : Type ℓ} where
  -- The `n` cells from `off` on.
  unfoldable pub slice : ℕ → ℕ → List A → List A
  slice off n c = take n (drop off c)

  -- The buffer `c` with the cells from `off` on overwritten by `bs`; what would fall behind the
  -- buffer's end is dropped.
  unfoldable pub splice : ℕ → List A → List A → List A
  splice off bs [] = []
  splice zero [] (x ∷ c) = x ∷ c
  splice zero (b ∷ bs) (x ∷ c) = b ∷ splice zero bs c
  splice (suc off) bs (x ∷ c) = x ∷ splice off bs c

  pub length-splice : (off : ℕ) (bs c : List A) → length (splice off bs c) ≡ length c
  unfolding splice
  length-splice off bs [] = refl
  length-splice zero [] (x ∷ c) = refl
  length-splice zero (b ∷ bs) (x ∷ c) = ap suc (length-splice zero bs c)
  length-splice (suc off) bs (x ∷ c) = ap suc (length-splice off bs c)

  pub slice-splice_self :
      (off : ℕ) (bs c : List A)
      → off + length bs ≤ length c
      → slice off (length bs) (splice off bs c) ≡ bs
  unfolding splice slice
  slice-splice_self zero [] c h = refl
  slice-splice_self zero (b ∷ bs) [] h = absurd (omega arith)
  slice-splice_self zero (b ∷ bs) (x ∷ c) h = ap (◌∷◌ b) (slice-splice_self zero bs c (omega arith))
  slice-splice_self (suc off) bs [] h = absurd (omega arith)
  slice-splice_self (suc off) bs (x ∷ c) h = slice-splice_self off bs c (omega arith)

  -- A range that ends before the overwritten one.
  pub slice-splice_before :
      (off n at : ℕ) (bs c : List A) → off + n ≤ at → slice off n (splice at bs c) ≡ slice off n c
  unfolding splice slice
  slice-splice_before off n at bs [] h = refl
  slice-splice_before zero zero at bs (x ∷ c) h = refl
  slice-splice_before zero (suc n) zero bs (x ∷ c) h = absurd (omega arith)
  slice-splice_before zero (suc n) (suc at) bs (x ∷ c) h =
      ap (◌∷◌ x) (slice-splice_before zero n at bs c (omega arith))
  slice-splice_before (suc off) n zero bs (x ∷ c) h = absurd (omega arith)
  slice-splice_before (suc off) n (suc at) bs (x ∷ c) h =
      slice-splice_before off n at bs c (omega arith)

  -- A range that starts behind the overwritten one.
  pub slice-splice_after :
      (off n at : ℕ) (bs c : List A)
      → at + length bs ≤ off
      → slice off n (splice at bs c) ≡ slice off n c
  unfolding splice slice
  slice-splice_after off n at bs [] h = refl
  slice-splice_after off n zero [] (x ∷ c) h = refl
  slice-splice_after zero n zero (b ∷ bs) (x ∷ c) h = absurd (omega arith)
  slice-splice_after (suc off) n zero (b ∷ bs) (x ∷ c) h =
      slice-splice_after off n zero bs c (omega arith)
  slice-splice_after zero n (suc at) bs (x ∷ c) h = absurd (omega arith)
  slice-splice_after (suc off) n (suc at) bs (x ∷ c) h =
      slice-splice_after off n at bs c (omega arith)
