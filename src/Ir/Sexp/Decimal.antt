-- ===== src/Ir/Sexp/Decimal.antt =====
-- crates/compact/analyzed-ir/src/sexp.rs: the reader on numbers written in decimal.
use midnight_rs.Base.{
  ℕ, zero, suc, ◌+◌, ◌/◌, ◌%◌, ◌<◌, ◌≡◌, refl, ◌∙◌, ap, true, List, [], ◌∷◌, ltb, all, ℤ, pos,
  negsuc, arith, Bool-cases, inl, inr, ltb→lt,
}
use midnight_rs.Ir.Datum.{int}
use midnight_rs.Ir.Atoms.{is_digit, is_number, digits_value, negated, atom_of}
use midnight_rs.Ir.Sexp.Write.{decimal_from, decimal, write_int}

decimal_from-value :
    (f n : ℕ) (digits : List ℕ)
    → n < f
    → digits_value 0 (decimal_from f n digits) ≡ digits_value n digits
unfolding decimal_from digits_value
decimal_from-value zero n digits h = absurd (omega arith)
decimal_from-value (suc f) n digits h = elim (Bool-cases (ltb n 10)) [
  | inl small ↦ rw small (ap (λ m. digits_value m digits) (omega arith))
  | inr large ↦ rw large (
      decimal_from-value f (n / 10) ((b'0' + n % 10) ∷ digits) (ground arith)
      ∙ ap (λ m. digits_value m digits) (omega arith))
]

digit-is_digit : (d : ℕ) → d < 10 → is_digit (b'0' + d) ≡ true
digit-is_digit d h = ground arith

decimal_from-digits :
    (f n : ℕ) (digits : List ℕ)
    → n < f
    → all is_digit digits ≡ true
    → is_number (decimal_from f n digits) ≡ true
unfolding decimal_from
decimal_from-digits zero n digits h ds = absurd (omega arith)
decimal_from-digits (suc f) n digits h ds = elim (Bool-cases (ltb n 10)) [
  | inl small ↦ rw small (rw (digit-is_digit n (ltb→lt n 10 small)) ds)
  | inr large ↦ rw large (
      decimal_from-digits f (n / 10) ((b'0' + n % 10) ∷ digits) (ground arith)
        (rw (digit-is_digit (n % 10) (omega arith)) ds))
]

pub decimal-value : (n : ℕ) → digits_value 0 (decimal n) ≡ n
unfolding decimal digits_value
decimal-value n = decimal_from-value (suc n) n [] (omega arith)

pub decimal-is_number : (n : ℕ) → is_number (decimal n) ≡ true
unfolding decimal
decimal-is_number n = decimal_from-digits (suc n) n [] (omega arith) refl

number_atom : (t : List ℕ) → is_number t ≡ true → atom_of t ≡ int (pos (digits_value 0 t))
number_atom [] h = cc
number_atom (c ∷ cs) h = ground arith

-- The token of a written integer stands for it.
pub atom_of-write_int : (i : ℤ) → atom_of (write_int i) ≡ int i
atom_of-write_int (pos n) =
    number_atom (decimal n) (decimal-is_number n) ∙ ap (λ m. int (pos m)) (decimal-value n)
atom_of-write_int (negsuc n) =
    rw (decimal-is_number (suc n)) (ap (λ m. int (negated m)) (decimal-value (suc n)))
