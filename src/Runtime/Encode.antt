-- ===== src/Runtime/Encode.antt =====
-- crates/compact/runtime/src/compact_types.rs: the typed encoding of a value, and the default value of
-- a type.
pub mod Contract
use midnight_rs.Base.{
  ℕ, zero, suc, ◌+◌, ◌-◌, ◌*◌, ◌/◌, ◌%◌, ◌^◌, ◌≡◌, refl, Bool, true, false, not, ◌&&◌, ◌||◌, Option,
  none, some, List, [], ◌∷◌, ltb, leb, ◌==◌, if◌then◌else◌, Result, ok, err, ◌>>=◌, ok_or,
}
use midnight_rs.Ir.Text.{bytes_of, eq_text}
use midnight_rs.Ir.Model.{Curve, FieldType, Ty, Tys, Fields, uint_byte_width, contract_address}
use midnight_rs.Runtime.Value.{
  Segment, AlignedValue, Value, Values, Members, InterpreterError, Try, Fab, is_foreign, ir_length,
  aligned_atom_to_u128, value_to_u128,
}
use midnight_rs.Runtime.Layout.{types_length}

-- `u128::try_from(maxval).unwrap_or(u128::MAX)`, and the comparison
abbrev pub check_uint_range : ℕ → ℕ → Try ℕ
check_uint_range n maxval =
    let max = if ltb maxval (2 ^ 128) then maxval else 2 ^ 128 - 1 in
    if ltb max n then err InterpreterError.type_error else ok max

-- `to_le_bytes`, of so many bytes
abbrev pub le_bytes : ℕ → ℕ → List ℕ
le_bytes zero n = []
le_bytes (suc k) n = n % 256 ∷ le_bytes k (n / 256)

abbrev pub values_length : Values → ℕ
values_length Values.no_values = 0
values_length (Values.more_values v vs) = suc (values_length vs)

abbrev pub members_length : Members → ℕ
members_length Members.no_members = 0
members_length (Members.more_members name v ms) = suc (members_length ms)

abbrev pub fields_length : Fields → ℕ
fields_length Fields.no_fields = 0
fields_length (Fields.more_fields name t fs) = suc (fields_length fs)

-- `fields.get(name)`
abbrev pub member_at : Members → List ℕ → Option Value
member_at Members.no_members name = none
member_at (Members.more_members n v ms) name = if eq_text n name then some v else member_at ms name

abbrev pub ordered : Fields → Members → Try Values
ordered Fields.no_fields ms = ok Values.no_values
ordered (Fields.more_fields name t fs) ms =
    ok_or (member_at ms name) InterpreterError.type_error >>= λ v.
    ordered fs ms >>= λ vs. ok (Values.more_values v vs)

-- A struct's value: flat already, or the values of its fields in declaration order.
pub data Given : Type 0 where
  flat : AlignedValue → Given
  parts : Values → Given

abbrev pub field_values : Fields → Value → Try Given
field_values fs (Value.aligned av) = ok (Given.flat av)
field_values fs (Value.struct ms) =
    if members_length ms == fields_length fs
    then (ordered fs ms >>= λ vs. ok (Given.parts vs))
    else err InterpreterError.type_error
field_values fs (Value.tuple vs) =
    if values_length vs == fields_length fs
    then ok (Given.parts vs)
    else err InterpreterError.type_error
field_values fs _ = err InterpreterError.type_error

abbrev pub on_parts : Given → (Values → Try AlignedValue) → Try AlignedValue
on_parts (Given.flat av) k = ok av
on_parts (Given.parts vs) k = k vs

-- `map_err` of a field's error
abbrev pub as_type_error : {A : Type 0} → Try A → Try A
as_type_error (ok a) = ok a
as_type_error (err e) = err InterpreterError.type_error

module _ (fab : Fab) where
  -- The length is cast to a `u32`.
  abbrev pub bytes_aligned_value : List ℕ → ℕ → Try AlignedValue
  bytes_aligned_value bs n =
      ok_or (fab.new_aligned (fab.atom_of_bytes bs ∷ []) (Segment.byte_atom (n % 2 ^ 32) ∷ []))
        InterpreterError.type_error

  abbrev pub encode_boolean : Value → Try AlignedValue
  encode_boolean (Value.bool b) = ok (fab.of_bool b)
  encode_boolean (Value.integer n) = ok (fab.of_bool (not (n == 0)))
  encode_boolean (Value.aligned av) =
      ok_or (aligned_atom_to_u128 fab av) InterpreterError.type_error >>= λ n.
      ok (fab.of_bool (not (n == 0)))
  encode_boolean _ = err InterpreterError.type_error

  abbrev pub encode_unsigned : ℕ → Value → Try AlignedValue
  encode_unsigned maxval v = ok_or (value_to_u128 fab v) InterpreterError.type_error >>= λ n.
      check_uint_range n maxval >>= λ max.
      bytes_aligned_value (le_bytes 16 n) (uint_byte_width maxval)

  abbrev pub encode_native_field : Value → Try AlignedValue
  encode_native_field (Value.aligned av) = ok av
  encode_native_field (Value.integer n) = ok (fab.of_fr (fab.fr_of_u128 n))
  encode_native_field _ = err InterpreterError.type_error

  abbrev pub encode_bytes : ℕ → Value → Try AlignedValue
  encode_bytes n (Value.aligned av) =
      ok (record av { alignment = Segment.byte_atom (n % 2 ^ 32) ∷ [] })
  encode_bytes n Value.void = bytes_aligned_value [] n
  encode_bytes n _ = err InterpreterError.type_error

  abbrev pub encode_opaque : Value → Try AlignedValue
  encode_opaque (Value.aligned av) = ok av
  encode_opaque Value.void = ok fab.empty_opaque
  encode_opaque _ = err InterpreterError.type_error

  abbrev pub encode_enum : Value → Try AlignedValue
  encode_enum (Value.integer n) =
      if ltb n 256 then ok (fab.of_u8 n) else err InterpreterError.type_error
  encode_enum (Value.aligned av) = ok av
  encode_enum _ = err InterpreterError.type_error

  -- The values of a vector's elements, and of a tuple's, which is the unit if it has none.
  abbrev pub encode_elements : ℕ → Value → (Values → Try (List AlignedValue)) → Try AlignedValue
  encode_elements n (Value.aligned av) k = ok av
  encode_elements n (Value.tuple vs) k =
      if values_length vs == n
      then (k vs >>= λ encoded. ok (fab.concat encoded))
      else err InterpreterError.type_error
  encode_elements n _ k = err InterpreterError.type_error

  abbrev pub encode_tuple : ℕ → Value → (Values → Try (List AlignedValue)) → Try AlignedValue
  encode_tuple zero Value.void k = ok fab.of_unit
  encode_tuple n v k = encode_elements n v k

  abbrev pub encode_each : (Value → Try AlignedValue) → Values → Try (List AlignedValue)
  encode_each encode Values.no_values = ok []
  encode_each encode (Values.more_values v vs) =
      encode v >>= λ a. encode_each encode vs >>= λ encoded. ok (a ∷ encoded)

  -- A contract's address, a struct of one field: `encode_typed` at `Type::contract_address()`.
  abbrev pub one_field : ℕ → Values → Try (List AlignedValue)
  one_field n Values.no_values = ok []
  one_field n (Values.more_values v vs) = as_type_error (encode_bytes n v) >>= λ a. ok (a ∷ [])

  abbrev pub encode_contract : Value → Try AlignedValue
  encode_contract v =
      field_values (Fields.more_fields (bytes_of "bytes") (Ty.bytes 32) Fields.no_fields) v
      >>= λ given. on_parts given (λ vs. one_field 32 vs >>= λ encoded. ok (fab.concat encoded))

  unfoldable mutual
    unfolding uint_byte_width

    pub encode_typed : Ty → Value → Try AlignedValue
    encode_typed Ty.boolean v = encode_boolean v
    encode_typed (Ty.unsigned maxval) v = encode_unsigned maxval v
    encode_typed (Ty.field f) v =
        if is_foreign f then fab.foreign_encode f v else encode_native_field v
    encode_typed (Ty.bytes n) v = encode_bytes n v
    encode_typed (Ty.alias nominal name t) v = encode_typed t v
    encode_typed (Ty.contract name cs) v = encode_contract v
    encode_typed (Ty.point Curve.jubjub) v = encode_opaque v
    encode_typed (Ty.point c) v = fab.point_encode c v
    encode_typed (Ty.opaque name) v = encode_opaque v
    encode_typed (Ty.tuple ts) v = encode_tuple (types_length ts) v (λ vs. encode_tuple_parts ts vs)
    encode_typed (Ty.vector n t) v =
        encode_elements n v (λ vs. encode_each (λ e. encode_typed t e) vs)
    encode_typed (Ty.struct name fs) v = field_values fs v >>= λ given.
        on_parts given (λ vs. encode_fields fs vs >>= λ encoded. ok (fab.concat encoded))
    encode_typed (Ty.enum name variants) v = encode_enum v
    encode_typed (Ty.adt name found) v = err InterpreterError.type_error
    encode_typed (Ty.type_var name) v = err InterpreterError.type_error
    encode_typed Ty.unknown v = err InterpreterError.type_error

    pub encode_tuple_parts : Tys → Values → Try (List AlignedValue)
    encode_tuple_parts Tys.no_types vs = ok []
    encode_tuple_parts (Tys.more_types t ts) Values.no_values = ok []
    encode_tuple_parts (Tys.more_types t ts) (Values.more_values v vs) =
        encode_typed t v >>= λ a. encode_tuple_parts ts vs >>= λ encoded. ok (a ∷ encoded)

    pub encode_fields : Fields → Values → Try (List AlignedValue)
    encode_fields Fields.no_fields vs = ok []
    encode_fields (Fields.more_fields name t fs) Values.no_values = ok []
    encode_fields (Fields.more_fields name t fs) (Values.more_values v vs) =
        as_type_error (encode_typed t v) >>= λ a.
        encode_fields fs vs >>= λ encoded. ok (a ∷ encoded)

  -- `repeat_with(..).take(n).collect()`
  abbrev pub repeated : ℕ → Try Value → Try Values
  repeated zero v = ok Values.no_values
  repeated (suc n) v = v >>= λ first. repeated n v >>= λ vs. ok (Values.more_values first vs)

  abbrev pub as_aligned : Try AlignedValue → Try Value
  as_aligned a = a >>= λ av. ok (Value.aligned av)

  unfoldable mutual
    unfolding encode_typed

    pub default_value : Ty → Try Value
    default_value Ty.boolean = ok (Value.bool false)
    default_value (Ty.unsigned maxval) = ok (Value.integer 0)
    default_value (Ty.enum name variants) = ok (Value.integer 0)
    default_value (Ty.field f) =
        ok (
          Value.aligned (if is_foreign f then fab.foreign_zero f else fab.of_fr (fab.fr_of_u128 0)))
    default_value (Ty.bytes n) = ir_length n >>= λ len. as_aligned (bytes_aligned_value [] len)
    default_value (Ty.point c) = ok (Value.aligned (fab.point_default c))
    default_value (Ty.opaque name) = ok (Value.aligned fab.empty_opaque)
    default_value (Ty.struct name fs) =
        field_defaults fs >>= λ vs. as_aligned (encode_typed (Ty.struct name fs) (Value.tuple vs))
    default_value (Ty.tuple Tys.no_types) = ok Value.void
    default_value (Ty.tuple (Tys.more_types t ts)) = default_value t >>= λ v.
        type_defaults ts >>= λ vs. ok (Value.tuple (Values.more_values v vs))
    default_value (Ty.vector n t) =
        let element = default_value t in
        ir_length n >>= λ len. repeated len element >>= λ vs. ok (Value.tuple vs)
    default_value (Ty.alias nominal name t) = default_value t
    default_value (Ty.contract name cs) = as_aligned (bytes_aligned_value [] 32) >>= λ v.
        as_aligned
          (encode_typed contract_address (Value.tuple (Values.more_values v Values.no_values)))
    default_value (Ty.adt name found) = err InterpreterError.unsupported
    default_value (Ty.type_var name) = err InterpreterError.unsupported
    default_value Ty.unknown = err InterpreterError.unsupported

    pub type_defaults : Tys → Try Values
    type_defaults Tys.no_types = ok Values.no_values
    type_defaults (Tys.more_types t ts) =
        default_value t >>= λ v. type_defaults ts >>= λ vs. ok (Values.more_values v vs)

    pub field_defaults : Fields → Try Values
    field_defaults Fields.no_fields = ok Values.no_values
    field_defaults (Fields.more_fields name t fs) =
        default_value t >>= λ v. field_defaults fs >>= λ vs. ok (Values.more_values v vs)

-- `unsupported_type(t).is_some()` of crates/compact/codegen/src/artifact.rs
unfoldable mutual
  pub is_unsupported : Ty → Bool
  is_unsupported (Ty.adt name found) = true
  is_unsupported (Ty.type_var name) = true
  is_unsupported (Ty.vector n t) = is_unsupported t
  is_unsupported (Ty.alias nominal name t) = is_unsupported t
  is_unsupported (Ty.tuple ts) = any_unsupported ts
  is_unsupported (Ty.struct name fs) = any_field_unsupported fs
  is_unsupported _ = false

  pub any_unsupported : Tys → Bool
  any_unsupported Tys.no_types = false
  any_unsupported (Tys.more_types t ts) = is_unsupported t || any_unsupported ts

  pub any_field_unsupported : Fields → Bool
  any_field_unsupported Fields.no_fields = false
  any_field_unsupported (Fields.more_fields name t fs) =
      is_unsupported t || any_field_unsupported fs

unfoldable pub check_type : Ty → Try Unit
unfolding is_unsupported
check_type t = if is_unsupported t then err InterpreterError.unsupported else ok tt
