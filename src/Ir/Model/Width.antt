-- ===== src/Ir/Model/Width.antt =====
-- crates/compact/analyzed-ir/src/model.rs: the byte width of an unsigned integer.
use native.Mathlib.Nat.{pow-le-pow_right}
use midnight_rs.Base.{ℕ, zero, suc, ◌-◌, ◌*◌, ◌/◌, ◌^◌, ◌≤◌, ◌<◌, ◌≡◌, refl, arith, inl, inr, ◌⊎◌}
use midnight_rs.Ir.Model.{bits_of, bits, width_of, uint_byte_width}

bits_of-zero : (f : ℕ) → bits_of f 0 ≡ 0
unfolding bits_of
bits_of-zero zero = refl
bits_of-zero (suc f) = refl

bits_of-suc : (f n : ℕ) → 0 < n → bits_of (suc f) n ≡ suc (bits_of f (n / 2))
unfolding bits_of
bits_of-suc f n h = ground arith

bits_of_holds : (f n : ℕ) → n ≤ f → n < 2 ^ bits_of f n
bits_of_holds f zero h = rw (bits_of-zero f) (omega arith)
bits_of_holds zero (suc n) h = absurd (omega arith)
bits_of_holds (suc f) (suc n) h =
    rw (bits_of-suc f (suc n) (omega arith))
      (omega (arith, bits_of_holds f (suc n / 2) (omega arith)))

bits_of_needs : (f n : ℕ) → n ≤ f → 0 < n → 2 ^ bits_of f n ≤ 2 * n
bits_of_needs zero n h p = absurd (omega arith)
bits_of_needs (suc f) (suc zero) h p =
    rw (bits_of-suc f 1 (omega arith)) (rw (bits_of-zero f) (omega arith))
bits_of_needs (suc f) (suc (suc n)) h p =
    rw (bits_of-suc f (suc (suc n)) (omega arith))
      (omega (arith, bits_of_needs f (suc (suc n) / 2) (omega arith) (omega arith)))
bits_of_needs f zero h p = absurd (omega arith)

width_of_covers : (b : ℕ) → b ≤ 8 * width_of b
width_of_covers zero = omega arith
width_of_covers (suc b) = omega arith

-- The width is one byte, or a byte less has fewer bits than are set.
width_of_needs : (b : ℕ) → (width_of b ≡ 1) ⊎ (suc (8 * (width_of b - 1)) ≤ b)
width_of_needs zero = inl refl
width_of_needs (suc b) = inr (omega arith)

width_of_pos : (b : ℕ) → 0 < width_of b
width_of_pos zero = omega arith
width_of_pos (suc b) = omega arith

bits_holds : (n : ℕ) → n < 2 ^ bits n
unfolding bits
bits_holds n = bits_of_holds n n (omega arith)

bits_needs : (n k : ℕ) → suc k ≤ bits n → 2 ^ k ≤ n
unfolding bits
bits_needs zero k h = absurd (omega arith)
bits_needs (suc n) k h =
    omega (arith, bits_of_needs (suc n) (suc n) (omega arith) (omega arith), pow-le-pow_right two h)
  where
    two : 0 < 2
    two = omega arith

-- The width of an unsigned integer is at least one byte, its bytes hold the largest value, and it is
-- one byte or a byte less does not hold that value.
pub uint_byte_width_fewest :
    (maxval : ℕ)
    → (0 < uint_byte_width maxval)
      × (maxval < 2 ^ (8 * uint_byte_width maxval))
      × ((uint_byte_width maxval ≡ 1) ⊎ (2 ^ (8 * (uint_byte_width maxval - 1)) ≤ maxval))
unfolding uint_byte_width
uint_byte_width_fewest n = (
  width_of_pos (bits n),
  omega (arith, bits_holds n, pow-le-pow_right two (width_of_covers (bits n))),
  (elim (width_of_needs (bits n)) [
    | inl one ↦ inl one
    | inr more ↦ inr (bits_needs n (8 * (width_of (bits n) - 1)) more)
  ]),
)
  where
    two : 0 < 2
    two = omega arith
