-- ===== src/Block/Sequence.antt =====
-- The sequence numbers of vbh_transaction_def.inl.
use vorder.Base.{ℕ, zero, suc, ◌+◌, ◌*◌, ◌/◌, ◌%◌, ◌^◌, ◌<◌, ◌≡◌, ap, ◌∙◌, arith}
use vorder.Block.{lor, combine_sequence_number, get_trans_type, sequence_number_inc}

lor_zero : (m a : ℕ) → a < 2 ^ m → lor m a 0 ≡ a
unfolding lor
lor_zero zero a h = omega arith
lor_zero (suc m) a h =
    let p : 2 ^ suc m ≡ 2 * 2 ^ m = omega arith in
    let r = lor_zero m (a / 2) (omega (arith, p)) in ground (arith, r)

-- The numbers have no bit in common.
lor_disjoint : (k m a b : ℕ) → a < 2 ^ m → b < 2 ^ k → lor (k + m) (a * 2 ^ k) b ≡ a * 2 ^ k + b
unfolding lor
lor_disjoint zero m a b h g =
    let z : b ≡ 0 = omega arith in
    let o : a * 2 ^ zero ≡ a = omega arith in
    let n : zero + m ≡ m = omega arith in rw (z, o, n) (lor_zero m a h ∙ omega arith)
lor_disjoint (suc k) m a b h g =
    let e : 2 ^ suc k ≡ 2 * 2 ^ k = omega arith in
    let p : a * 2 ^ suc k ≡ 2 * (a * 2 ^ k) = rw e (grind arith) in
    let q : 2 * (a * 2 ^ k) / 2 ≡ a * 2 ^ k = omega arith in
    let n : suc k + m ≡ suc (k + m) = omega arith in
    let r = lor_disjoint k m a (b / 2) h (omega (arith, e)) in rw (p, n, lor, q, r) (ground arith)

combine-sum :
    (type serial : ℕ)
    → type < 2 ^ 4
    → serial < 2 ^ 28
    → combine_sequence_number type serial ≡ type * 2 ^ 28 + serial
unfolding combine_sequence_number
combine-sum type serial h g =
    let w : type * 2 ^ 28 % 2 ^ 32 ≡ type * 2 ^ 28 = omega arith in
    ap (λ x. lor 32 x serial) w ∙ lor_disjoint 28 4 type serial h g

-- A type of four bits and a serial number of 28 can both be read back from the sequence number that
-- they are combined to; it fits in 32 bits, and the next serial number has 28 bits again.
pub get_trans_type-combine :
    (type serial : ℕ)
    → type < 2 ^ 4
    → serial < 2 ^ 28
    → (get_trans_type (combine_sequence_number type serial) ≡ type)
      × (combine_sequence_number type serial % 2 ^ 28 ≡ serial)
      × (combine_sequence_number type serial < 2 ^ 32)
      × (sequence_number_inc serial < 2 ^ 28)
unfolding get_trans_type sequence_number_inc
get_trans_type-combine type serial h g =
    let c = combine-sum type serial h g in
    (omega (arith, c), omega (arith, c), omega (arith, c), ground arith)
