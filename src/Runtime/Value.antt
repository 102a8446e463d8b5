-- ===== src/Runtime/Value.antt =====
-- crates/compact/runtime/src/value.rs, conversions.rs and error.rs: the values of a circuit that runs.
-- The ledger's encoding primitives are the fields of `Fab`.
use midnight_rs.Base.{
  ℕ, ◌^◌, Bool, true, false, Option, none, some, List, [], ◌∷◌, ltb, if◌then◌else◌, Result, ok, err,
  ◌>>=◌,
}
use midnight_rs.Ir.Model.{Curve, FieldType}

-- `fab::AlignmentSegment`: an atom, with its alignment, or a disjoint union.
pub data Segment : Type 0 where
  byte_atom : ℕ → Segment
  compress field_atom choice : Segment

-- `fab::AlignedValue`: the atoms, each its bytes, and the alignment.
pub record AlignedValue : Type 0 where
  pub value : List (List ℕ)
  pub alignment : List Segment

mutual
  pub data Value : Type 0 where
    bool : Bool → Value
    integer : ℕ → Value
    aligned : AlignedValue → Value
    struct : Members → Value
    tuple : Values → Value
    void : Value

  -- `Vec<Value>`
  pub data Values : Type 0 where
    no_values : Values
    more_values : Value → Values → Values

  -- `HashMap<String, Value>`, a name at most once
  pub data Members : Type 0 where
    no_members : Members
    more_members : List ℕ → Value → Members → Members

-- `InterpreterError`; `range_failed` is an `AssertionFailed` with the message of a cast.
pub data InterpreterError : Type 0 where
  undefined_variable assertion_failed : List ℕ → InterpreterError
  range_failed ledger_query_failed type_error unsupported witness no_contract_address :
      InterpreterError

abbrev pub Try : Type 0 → Type 0
Try A = Result InterpreterError A

pub data ArithOp : Type 0 where
  add sub mul : ArithOp

-- What the runtime calls in the ledger crates and in its own foreign fields. A native field element
-- is a number that stands for it.
pub record Fab : Type 0 where
  -- `AlignedValue::from` of a Boolean, a `u8`, a `u64`, a `u128`, `()`, and a field element
  pub of_bool : Bool → AlignedValue
  pub of_u8 : ℕ → AlignedValue
  pub of_u64 : ℕ → AlignedValue
  pub of_u128 : ℕ → AlignedValue
  pub of_unit : AlignedValue
  pub of_fr : ℕ → AlignedValue
  pub concat : List AlignedValue → AlignedValue
  -- `AlignedValue::new`, of the atoms and the alignment
  pub new_aligned : List (List ℕ) → List Segment → Option AlignedValue
  -- `ValueAtom::from`, and `u128::try_from` of an atom
  pub atom_of_bytes : List ℕ → List ℕ
  pub atom_to_u128 : List ℕ → Option ℕ
  -- `Fr::from(u128)`, `Fr::from_le_bytes`, `as_le_bytes`, `Fr::try_from` of atoms, and arithmetic
  pub fr_of_u128 : ℕ → ℕ
  pub fr_of_bytes : List ℕ → Option ℕ
  pub fr_bytes : ℕ → List ℕ
  pub fr_of_atoms : List (List ℕ) → Option ℕ
  pub fr_arith : ArithOp → ℕ → ℕ → ℕ
  pub empty_opaque : AlignedValue
  pub point_default : Curve → AlignedValue
  pub point_width : Curve → ℕ
  pub point_encode : Curve → Value → Result InterpreterError AlignedValue
  -- the foreign fields
  pub foreign_width : FieldType → ℕ
  pub foreign_zero : FieldType → AlignedValue
  pub foreign_encode : FieldType → Value → Result InterpreterError AlignedValue
  pub foreign_arith : FieldType → ArithOp → Value → Value → Result InterpreterError Value
  pub foreign_of_bytes : FieldType → List ℕ → Value
  pub foreign_bytes : FieldType → Value → Result InterpreterError (List ℕ)

-- `ForeignField::of(field).is_some()`
abbrev pub is_foreign : FieldType → Bool
is_foreign FieldType.native = false
is_foreign (FieldType.base Curve.jubjub) = false
is_foreign (FieldType.scalar Curve.jubjub) = false
is_foreign _ = true

-- `usize::try_from` of an IR length
abbrev pub ir_length : ℕ → Try ℕ
ir_length n = if ltb n (2 ^ 64) then ok n else err InterpreterError.type_error

abbrev pub as_u32 : Value → Option ℕ
as_u32 (Value.integer n) = if ltb n (2 ^ 32) then some n else none
as_u32 _ = none

module _ (fab : Fab) where
  abbrev pub integer_fallback_aligned : ℕ → AlignedValue
  integer_fallback_aligned n = if ltb n (2 ^ 64) then fab.of_u64 n else fab.of_u128 n

  unfoldable mutual
    pub try_to_aligned_value : Value → Try AlignedValue
    try_to_aligned_value (Value.aligned av) = ok av
    try_to_aligned_value (Value.integer n) = ok (integer_fallback_aligned n)
    try_to_aligned_value (Value.bool b) = ok (fab.of_bool b)
    try_to_aligned_value Value.void = ok fab.of_unit
    try_to_aligned_value (Value.tuple vs) = try_all vs >>= λ parts. ok (fab.concat parts)
    try_to_aligned_value (Value.struct ms) = err InterpreterError.type_error

    pub try_all : Values → Try (List AlignedValue)
    try_all Values.no_values = ok []
    try_all (Values.more_values v vs) =
        try_to_aligned_value v >>= λ a. try_all vs >>= λ parts. ok (a ∷ parts)

  abbrev pub first_atom_to_u128 : List (List ℕ) → Option ℕ
  first_atom_to_u128 [] = none
  first_atom_to_u128 (atom ∷ atoms) = fab.atom_to_u128 atom

  abbrev pub aligned_atom_to_u128 : AlignedValue → Option ℕ
  aligned_atom_to_u128 av = first_atom_to_u128 av.value

  abbrev pub value_to_u128 : Value → Option ℕ
  value_to_u128 (Value.integer n) = some n
  value_to_u128 (Value.bool b) = some (if b then 1 else 0)
  value_to_u128 (Value.aligned av) = aligned_atom_to_u128 av
  value_to_u128 _ = none

  abbrev pub value_to_fr : Value → Option ℕ
  value_to_fr (Value.integer n) = some (fab.fr_of_u128 n)
  value_to_fr (Value.aligned av) = fab.fr_of_atoms av.value
  value_to_fr _ = none
