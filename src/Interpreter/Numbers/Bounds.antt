-- ===== src/Interpreter/Numbers/Bounds.antt =====
-- crates/compact/interpreter/src/lib.rs: the numbers that arithmetic and casts to an enum give.
use midnight_rs.Base.{
  ℕ, ◌+◌, ◌-◌, ◌*◌, ◌^◌, ◌≤◌, ◌<◌, ◌≡◌, ◌⊎◌, inl, inr, refl, ap, ltb, if◌then◌else◌, Bool-cases,
  >>=-eq-ok, ok, err, ◌>>=◌, arith,
}
use midnight_rs.Ir.Model.{Ty}
use midnight_rs.Runtime.Value.{Value, InterpreterError, ArithOp, Fab}
use midnight_rs.Interpreter.Numbers.{
  uint_value, within, cast_to_enum, numeric_value, checked, arith_values,
}

-- The exact result of an operation on two numbers.
abbrev pub IsResult : ArithOp → ℕ → ℕ → ℕ → Type 0
IsResult ArithOp.add l r n = n ≡ l + r
IsResult ArithOp.sub l r n = n + r ≡ l
IsResult ArithOp.mul l r n = n ≡ l * r

-- No such result, or none that a `u128` holds
abbrev pub IsOutOfRange : ArithOp → ℕ → ℕ → Type 0
IsOutOfRange ArithOp.add l r = 2 ^ 128 ≤ l + r
IsOutOfRange ArithOp.sub l r = l < r
IsOutOfRange ArithOp.mul l r = 2 ^ 128 ≤ l * r

abbrev arith_error : ArithOp → InterpreterError
arith_error ArithOp.sub = InterpreterError.type_error
arith_error _ = InterpreterError.unsupported

within_u128 :
    (n : ℕ)
    → (e : InterpreterError)
    → (((if ltb n (2 ^ 128) then ok n else err e) ≡ ok n) × (n < 2 ^ 128))
      ⊎ (((if ltb n (2 ^ 128) then ok n else err e) ≡ err e) × (2 ^ 128 ≤ n))
within_u128 n e = elim (Bool-cases (ltb n (2 ^ 128))) [
  | inl t ↦ inl (rw t refl, ground arith)
  | inr f ↦ inr (rw f refl, ground arith)
]

checked_total :
    (op : ArithOp)
    → (l r : ℕ) → l < 2 ^ 128
    → ((n : ℕ) × ((checked op l r ≡ ok n) × IsResult op l r n × (n < 2 ^ 128)))
      ⊎ ((checked op l r ≡ err (arith_error op)) × IsOutOfRange op l r)
unfolding checked
checked_total ArithOp.add l r b = elim (within_u128 (l + r) InterpreterError.unsupported) [
  | inl (p, q) ↦ inl (l + r, (p, refl, q))
  | inr (p, q) ↦ inr (p, q)
]
checked_total ArithOp.sub l r b = elim (Bool-cases (ltb l r)) [
  | inl t ↦ inr (rw t refl, ground arith)
  | inr f ↦ inl (l - r, (rw f refl, ground arith, ground arith))
]
checked_total ArithOp.mul l r b = elim (within_u128 (l * r) InterpreterError.unsupported) [
  | inl (p, q) ↦ inl (l * r, (p, refl, q))
  | inr (p, q) ↦ inr (p, q)
]

-- Arithmetic on two integers at a `Uint` type, the left one a `u128`, is exact or refused: it gives the
-- integer that is the sum, the difference or the product, which a `u128` holds, or it gives an error, and
-- then the sum or the product is 2 ^ 128 or more, or the difference negative.
pub arith_values_total :
    (fab : Fab)
    → (maxval : ℕ) → (op : ArithOp) → (l r : ℕ) → l < 2 ^ 128
    → ((n : ℕ) × ((arith_values fab (Ty.unsigned maxval) op (Value.integer l) (Value.integer r)
            ≡ ok (Value.integer n))
          × IsResult op l r n
          × (n < 2 ^ 128)))
      ⊎ ((arith_values fab (Ty.unsigned maxval) op (Value.integer l) (Value.integer r)
            ≡ err (arith_error op))
          × IsOutOfRange op l r)
unfolding arith_values
arith_values_total fab maxval op l r b = elim (checked_total op l r b) [
  | inl (n, (p, q, small)) ↦ inl (n, (ap (λ t. t >>= λ k. ok (Value.integer k)) p, q, small))
  | inr (p, q) ↦ inr (ap (λ t. t >>= λ k. ok (Value.integer k)) p, q)
]

pub within_bounds :
    (n maxval : ℕ)
    → (w : Value) → within n maxval ≡ ok w
    → (w ≡ Value.integer n) × (n ≤ maxval) × (n < 2 ^ 128)
unfolding uint_value
within_bounds n maxval w h = elim (Bool-cases (ltb maxval n)) [
  | inl t ↦ ground arith
  | inr f ↦ elim (Bool-cases (ltb n (2 ^ 128))) [
    | inl small ↦ (ground arith, ground arith, ground arith)
    | inr large ↦ ground arith
  ]
]

-- A cast to an enum that gives a value gives the index of one of its variants, of which there is one or
-- more, and it is the number that the value stands for.
pub cast_to_enum_bounds :
    (fab : Fab)
    → (v w : Value) → (variants : ℕ) → 0 < variants
    → cast_to_enum fab v variants ≡ ok w
    → (n : ℕ) × ((w ≡ Value.integer n) × (numeric_value fab v ≡ ok n) × (n < variants))
unfolding cast_to_enum
cast_to_enum_bounds fab v w variants some_variant h =
    let (n, p, q) = >>=-eq-ok (numeric_value fab v) (λ n. within n (variants - 1)) h in
    let (e, bound, small) = within_bounds n (variants - 1) w q in (n, (e, p, omega arith))
