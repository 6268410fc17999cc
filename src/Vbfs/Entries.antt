-- ===== src/Vbfs/Entries.antt =====
-- The file index on the device: what a write of a sector, or of data behind the index, does to it.
use vorder.Base.{
  ℕ, ◌+◌, ◌-◌, ◌*◌, ◌/◌, ◌%◌, ◌^◌, ◌≤◌, ◌<◌, ◌≡◌, refl, sym, ap, ◌∙◌, inl, inr, true, false, List,
  if◌then◌else◌, ◌&&◌, ltb, leb, arith, Bool-cases,
}
use vorder.Vbfs.Device.{
  PhyFileIndex, entry_at, entry_byte, write_entries, write_bytes, word_at-word_byte, word_at-lt,
  word_at_cong,
}

-- The words of an entry fit.
abbrev pub IsEntry : PhyFileIndex → Type 0
IsEntry e = (e.logic_file_type < 2 ^ 32) × (e.logic_file_id < 2 ^ 32)

pub entry_at-IsEntry : (f : ℕ → ℕ) (k : ℕ) → IsEntry (entry_at f k)
unfolding entry_at
entry_at-IsEntry f k = (word_at-lt f (8 * k), word_at-lt f (8 * k + 4))

entry_eq :
    (e g : PhyFileIndex)
    → e.logic_file_type ≡ g.logic_file_type
    → e.logic_file_id ≡ g.logic_file_id
    → e ≡ g
entry_eq e g p q = λ i. record { logic_file_type = p i; logic_file_id = q i }

entry_at_cong :
    (f g : ℕ → ℕ) (k : ℕ)
    → ((r : ℕ) → r < 8 → f (8 * k + r) ≡ g (8 * k + r))
    → entry_at f k ≡ entry_at g k
unfolding entry_at
entry_at_cong f g k h =
    entry_eq (entry_at f k) (entry_at g k) (word_at_cong f g (8 * k) (λ r p. h r (omega arith))) (
      word_at_cong f g (8 * k + 4) (λ r p.
        let at : 8 * k + 4 + r ≡ 8 * k + (4 + r) = omega arith in
        ap f at ∙ h (4 + r) (omega arith) ∙ ap g (sym at)))

-- A byte of a written entry, and one outside of the write.
byte_in :
    (at k r : ℕ) (es : ℕ → PhyFileIndex) (f : ℕ → ℕ)
    → at ≤ k
    → k < at + 64
    → r < 8
    → write_entries at es f (8 * k + r) ≡ entry_byte (es (k - at)) r
unfolding write_entries
byte_in at k r es f low high small =
    let entry : (8 * k + r - 8 * at) / 8 ≡ k - at = omega arith in
    let rest : (8 * k + r - 8 * at) % 8 ≡ r = omega arith in
    let same =
      ap (λ (j : ℕ). entry_byte (es j) ((8 * k + r - 8 * at) % 8)) entry
      ∙ ap (entry_byte (es (k - at))) rest in
    let there : (leb (8 * at) (8 * k + r) && ltb (8 * k + r) (8 * at + 512)) ≡ true =
      ground arith in
    rw there same

byte_out :
    (at k r : ℕ) (es : ℕ → PhyFileIndex) (f : ℕ → ℕ)
    → (leb at k && ltb k (at + 64)) ≡ false
    → r < 8
    → write_entries at es f (8 * k + r) ≡ f (8 * k + r)
unfolding write_entries
byte_out at k r es f out small = ground arith

-- A written sector, entry by entry.
pub entry_at-write_entries :
    (at k : ℕ) (es : ℕ → PhyFileIndex) (f : ℕ → ℕ)
    → ((j : ℕ) → j < 64 → IsEntry (es j))
    → entry_at (write_entries at es f) k
      ≡ (if leb at k && ltb k (at + 64) then es (k - at) else entry_at f k)
unfolding entry_at entry_byte
entry_at-write_entries at k es f small =
    let g = write_entries at es f in
    elim (Bool-cases (leb at k && ltb k (at + 64))) [
      | inr out ↦ rw out (entry_at_cong g f k (λ r p. byte_out at k r es f out p))
      | inl hit ↦
          let low : at ≤ k = ground arith in
          let high : k < at + 64 = ground arith in
          let e = es (k - at) in
          let (t, d) = small (k - at) (omega arith) in
          let byte : (r a : ℕ) → r < 8 → a ≡ 8 * k + r → g a ≡ entry_byte e r =
            λ r a p q. ap g q ∙ byte_in at k r es f low high p in
          rw hit (
            entry_eq (entry_at g k) e
              (word_at-word_byte e.logic_file_type (8 * k) g t
                (byte 0 (8 * k) (omega arith) (omega arith)) (byte 1 (8 * k + 1) (omega arith) refl)
                (byte 2 (8 * k + 2) (omega arith) refl) (byte 3 (8 * k + 3) (omega arith) refl))
              (word_at-word_byte e.logic_file_id (8 * k + 4) g d
                (byte 4 (8 * k + 4) (omega arith) refl)
                (byte 5 (8 * k + 4 + 1) (omega arith) (omega arith))
                (byte 6 (8 * k + 4 + 2) (omega arith) (omega arith))
                (byte 7 (8 * k + 4 + 3) (omega arith) (omega arith))))
    ]

-- Data behind an entry leave it alone.
pub entry_at-write_bytes :
    (at k : ℕ) (bs : List ℕ) (f : ℕ → ℕ)
    → 8 * k + 8 ≤ at
    → entry_at (write_bytes at bs f) k ≡ entry_at f k
entry_at-write_bytes at k bs f h =
    entry_at_cong (write_bytes at bs f) f k (λ r p. unfold write_bytes in ground arith)
