-- ===== src/Interpreter/Numbers.antt =====
-- crates/compact/interpreter/src/lib.rs: literals, casts, arithmetic and equality of values.
pub mod Bounds
pub mod Casts
use midnight_rs.Base.{
  ℕ, zero, suc, ◌+◌, ◌-◌, ◌*◌, ◌^◌, Bool, true, false, not, ◌&&◌, Option, none, some, List, [], ◌∷◌,
  ◌++◌, pos, negsuc, ltb, leb, ◌==◌, if◌then◌else◌, length, all, Result, ok, err, ◌>>=◌, ok_or,
}
use midnight_rs.Ir.Text.{eq_text}
use midnight_rs.Ir.Model.{FieldType, Ty, uint_byte_width, resolved}
use midnight_rs.Ir.Expr.{Literal}
use midnight_rs.Runtime.Value.{
  AlignedValue, Value, InterpreterError, Try, ArithOp, Fab, is_foreign, ir_length,
  try_to_aligned_value, value_to_u128, value_to_fr,
}
use midnight_rs.Runtime.Encode.{le_bytes, bytes_aligned_value, encode_typed, check_type}

-- `BigUint::from_bytes_le` and `to_bytes_le`
abbrev pub le_value : List ℕ → ℕ
le_value [] = 0
le_value (b ∷ bs) = b + 256 * le_value bs

unfoldable pub to_bytes_le : ℕ → List ℕ
unfolding uint_byte_width
to_bytes_le n = le_bytes (uint_byte_width n) n

abbrev pub is_truthy : Value → Bool
is_truthy (Value.bool b) = b
is_truthy (Value.integer n) = not (n == 0)
is_truthy Value.void = false
is_truthy (Value.aligned av) = not (all (λ atom. all (λ b. b == 0) atom) av.value)
is_truthy _ = true

-- The bytes of the single atom of a `Bytes<length>` value.
abbrev pub single_atom : ℕ → List (List ℕ) → Try (List ℕ)
single_atom n (atom ∷ []) = if ltb n (length atom) then err InterpreterError.type_error else ok atom
single_atom n _ = err InterpreterError.type_error

abbrev pub value_to_byte_string : Value → ℕ → Try (List ℕ)
value_to_byte_string (Value.aligned av) n = single_atom n av.value
value_to_byte_string _ n = err InterpreterError.type_error

-- `resize(length, 0)` of no more bytes than that
abbrev pub pad : ℕ → List ℕ → List ℕ
pad zero bs = []
pad (suc n) [] = 0 ∷ pad n []
pad (suc n) (b ∷ bs) = b ∷ pad n bs

unfoldable pub padded_bytes : Value → ℕ → Try (List ℕ)
padded_bytes v n = value_to_byte_string v n >>= λ bs. ok (pad n bs)

unfoldable pub uint_value : ℕ → Try Value
uint_value n = if ltb n (2 ^ 128) then ok (Value.integer n) else err InterpreterError.unsupported

abbrev eq_atoms : List (List ℕ) → List (List ℕ) → Bool
eq_atoms [] [] = true
eq_atoms (a ∷ as') (b ∷ bs) = eq_text a b && eq_atoms as' bs
eq_atoms _ _ = false

abbrev pub refuse_foreign_cast : FieldType → Try Unit
refuse_foreign_cast f = if is_foreign f then err InterpreterError.type_error else ok tt

abbrev pub single_number : List (List ℕ) → Try ℕ
single_number (atom ∷ []) = ok (le_value atom)
single_number _ = err InterpreterError.type_error

-- The range check of a cast.
abbrev pub within : ℕ → ℕ → Try Value
within n maxval = if ltb maxval n then err InterpreterError.range_failed else uint_value n

-- `checked_add`, `checked_mul` and `checked_sub` of two `u128`s
unfoldable pub checked : ArithOp → ℕ → ℕ → Try ℕ
checked ArithOp.add l r =
    if ltb (l + r) (2 ^ 128) then ok (l + r) else err InterpreterError.unsupported
checked ArithOp.mul l r =
    if ltb (l * r) (2 ^ 128) then ok (l * r) else err InterpreterError.unsupported
checked ArithOp.sub l r = if ltb l r then err InterpreterError.type_error else ok (l - r)

module _ (fab : Fab) where
  -- The bytes of a literal that is no `u128`.
  abbrev pub literal_field : Option ℕ → Try Value
  literal_field none = err InterpreterError.type_error
  literal_field (some n) =
      ok_or (fab.fr_of_bytes (to_bytes_le n)) InterpreterError.type_error >>= λ fr.
      ok (Value.aligned (fab.of_fr fr))

  unfoldable pub eval_literal : Literal → Try Value
  unfolding to_bytes_le
  eval_literal (Literal.bool b) = ok (Value.bool b)
  eval_literal (Literal.int (pos n)) =
      if ltb n (2 ^ 128) then ok (Value.integer n) else literal_field (some n)
  eval_literal (Literal.int (negsuc n)) = literal_field none
  eval_literal (Literal.bytes bs) =
      bytes_aligned_value fab bs (length bs) >>= λ av. ok (Value.aligned av)

  unfoldable pub numeric_value : Value → Try ℕ
  unfolding try_to_aligned_value
  numeric_value (Value.integer n) = ok n
  numeric_value (Value.bool b) = ok (if b then 1 else 0)
  numeric_value v = try_to_aligned_value fab v >>= λ av. single_number av.value

  abbrev field_of_bytes : Value → ℕ → Try ℕ
  field_of_bytes v n = ir_length n >>= λ len.
      value_to_byte_string v len >>= λ bs. ok_or (fab.fr_of_bytes bs) InterpreterError.type_error

  abbrev field_of_number : Value → Try ℕ
  field_of_number v =
      numeric_value v >>= λ n. ok_or (fab.fr_of_bytes (to_bytes_le n)) InterpreterError.type_error

  abbrev to_fr : Ty → Value → Try ℕ
  to_fr (Ty.bytes n) v = field_of_bytes v n
  to_fr _ v = field_of_number v

  unfoldable pub cast_to_field : Value → Ty → Try Value
  unfolding numeric_value to_bytes_le
  cast_to_field v from = to_fr (resolved from) v >>= λ fr. ok (Value.aligned (fab.of_fr fr))

  abbrev pub to_number : Ty → Value → Try ℕ
  to_number (Ty.bytes n) v = ir_length n >>= λ len. padded_bytes v len >>= λ bs. ok (le_value bs)
  to_number _ v = numeric_value v

  unfoldable pub cast_to_uint : Value → Ty → ℕ → Try Value
  unfolding numeric_value uint_value padded_bytes
  cast_to_uint v from maxval = to_number (resolved from) v >>= λ n. within n maxval

  -- `variants.len()` of the enum
  unfoldable pub cast_to_enum : Value → ℕ → Try Value
  unfolding numeric_value uint_value
  cast_to_enum v variants = numeric_value v >>= λ n. within n (variants - 1)

  abbrev foreign_cast : FieldType → Ty → Value → Try Value
  foreign_cast f (Ty.bytes n) v =
      ir_length n >>= λ len. value_to_byte_string v len >>= λ bs. ok (fab.foreign_of_bytes f bs)
  foreign_cast f _ v = err InterpreterError.type_error

  unfoldable pub eval_cast : Value → Ty → Ty → Try Value
  unfolding cast_to_field cast_to_uint cast_to_enum
  eval_cast v from to = elim (resolved to) [
    | Ty.field f ↦ if is_foreign f then foreign_cast f (resolved from) v else cast_to_field v from
    | Ty.unsigned maxval ↦ cast_to_uint v from maxval
    | Ty.enum name variants ↦ cast_to_enum v (length variants)
    | _ ↦ ok v
  ]

  abbrev field_arith : ArithOp → Value → Value → Try Value
  field_arith op l r = ok_or (value_to_fr fab l) InterpreterError.type_error >>= λ a.
      ok_or (value_to_fr fab r) InterpreterError.type_error >>= λ b.
      ok (Value.aligned (fab.of_fr (fab.fr_arith op a b)))

  abbrev pub uint_arith : ArithOp → Value → Value → Try Value
  uint_arith op l r = ok_or (value_to_u128 fab l) InterpreterError.type_error >>= λ a.
      ok_or (value_to_u128 fab r) InterpreterError.type_error >>= λ b.
      checked op a b >>= λ n. ok (Value.integer n)

  -- `eval_arith`, once both operands have their values
  unfoldable pub arith_values : Ty → ArithOp → Value → Value → Try Value
  unfolding checked
  arith_values ty op l r = elim (resolved ty) [
    | Ty.field f ↦ if is_foreign f then fab.foreign_arith f op l r else field_arith op l r
    | Ty.unsigned maxval ↦ uint_arith op l r
    | _ ↦ err InterpreterError.type_error
  ]

  unfoldable pub values_equal : Value → Value → Ty → Try Bool
  unfolding encode_typed
  values_equal a b ty =
      encode_typed fab ty a >>= λ x. encode_typed fab ty b >>= λ y. ok (eq_atoms x.value y.value)

  abbrev pub as_integer : Value → Try ℕ
  as_integer v = ok_or (value_to_u128 fab v) InterpreterError.type_error

  -- `usize::try_from`
  abbrev pub as_index : Value → Try ℕ
  as_index v = as_integer v >>= λ n. ir_length n
