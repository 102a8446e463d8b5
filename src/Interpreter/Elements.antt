-- ===== src/Interpreter/Elements.antt =====
-- crates/compact/interpreter/src/lib.rs: the elements and the fields of values, structured or flat.
use midnight_rs.Base.{
  ℕ, zero, suc, ◌+◌, ◌-◌, Bool, false, ◌||◌, Option, none, some, List, [], ◌∷◌, ltb, leb, ◌==◌,
  if◌then◌else◌, length, ok, err, ◌>>=◌, ok_or,
}
use midnight_rs.Ir.Text.{bytes_of}
use midnight_rs.Ir.Model.{Ty, Fields, resolved}
use midnight_rs.Runtime.Value.{
  AlignedValue, Value, Values, Members, InterpreterError, Try, Fab, ir_length, value_to_u128,
}
use midnight_rs.Runtime.Layout.{
  ◌>>?◌, element_atom_range, element_count, layout_from_fields, field_slice, slice_atoms, take,
  drop,
}
use midnight_rs.Runtime.Encode.{values_length, member_at, bytes_aligned_value}
use midnight_rs.Interpreter.Infer.{field_type_of}
use midnight_rs.Interpreter.Numbers.{is_truthy, padded_bytes}

abbrev pub value_at : Values → ℕ → Option Value
value_at Values.no_values i = none
value_at (Values.more_values v vs) zero = some v
value_at (Values.more_values v vs) (suc i) = value_at vs i

abbrev pub append_values : Values → Values → Values
append_values Values.no_values ws = ws
append_values (Values.more_values v vs) ws = Values.more_values v (append_values vs ws)

abbrev pub byte_of_list : List ℕ → ℕ → Option ℕ
byte_of_list [] i = none
byte_of_list (b ∷ bs) zero = some b
byte_of_list (b ∷ bs) (suc i) = byte_of_list bs i

unfoldable pub byte_at : Value → ℕ → ℕ → Try Value
unfolding padded_bytes
byte_at v n i =
    if leb n i
    then err InterpreterError.type_error
    else (padded_bytes v n >>= λ bs.
        ok_or (byte_of_list bs i) InterpreterError.type_error >>= λ b. ok (Value.integer b))

abbrev pub struct_member : Members → List ℕ → Try Value
struct_member ms name = ok_or (member_at ms name) InterpreterError.type_error

abbrev byte_of : ℕ → Try ℕ
byte_of n = if ltb n 256 then ok n else err InterpreterError.type_error

abbrev byte_of_atom : List ℕ → Try ℕ
byte_of_atom [] = ok 0
byte_of_atom (b ∷ []) = ok b
byte_of_atom _ = err InterpreterError.type_error

abbrev bytes_of_atoms : List (List ℕ) → Try (List ℕ)
bytes_of_atoms [] = ok []
bytes_of_atoms (atom ∷ atoms) =
    byte_of_atom atom >>= λ b. bytes_of_atoms atoms >>= λ bs. ok (b ∷ bs)

module _ (fab : Fab) where
  abbrev aligned_slice : AlignedValue → ℕ × ℕ → Try Value
  aligned_slice av range =
      ok_or (slice_atoms av range) InterpreterError.type_error >>= λ part. ok (Value.aligned part)

  abbrev flat_element : AlignedValue → Ty → ℕ → Try Value
  flat_element av ty i = elim (resolved ty) [
    | Ty.bytes n ↦ ir_length n >>= λ len. byte_at (Value.aligned av) len i
    | _ ↦ ok_or (element_atom_range fab ty i) InterpreterError.type_error >>= λ range.
        aligned_slice av range
  ]

  unfoldable pub indexed_element : Value → Option Ty → ℕ → Try Value
  unfolding byte_at element_atom_range slice_atoms
  indexed_element (Value.tuple vs) ty i = ok_or (value_at vs i) InterpreterError.type_error
  indexed_element (Value.aligned av) ty i =
      ok_or ty InterpreterError.type_error >>= λ t. flat_element av t i
  indexed_element _ ty i = err InterpreterError.type_error

  -- The elements from start on, so many.
  unfoldable pub elements_from : Value → Option Ty → ℕ → ℕ → Try Values
  unfolding indexed_element
  elements_from v ty start zero = ok Values.no_values
  elements_from v ty start (suc n) = indexed_element v ty start >>= λ e.
      elements_from v ty (start + 1) n >>= λ vs. ok (Values.more_values e vs)

  unfoldable pub slice_elements : Value → Ty → ℕ → ℕ → Try Value
  unfolding elements_from
  slice_elements v ty start n = elements_from v (some ty) start n >>= λ vs. ok (Value.tuple vs)

  -- One atom is one element.
  abbrev atom_elements : AlignedValue → ℕ → ℕ → Try Values
  atom_elements av start zero = ok Values.no_values
  atom_elements av start (suc n) = aligned_slice av (start, start + 1) >>= λ e.
      atom_elements av (start + 1) n >>= λ vs. ok (Values.more_values e vs)

  abbrev is_count : Option ℕ → ℕ → Bool
  is_count none n = false
  is_count (some m) n = m == n

  -- What `splice_spread` pushes.
  unfoldable pub splice_spread : Value → Option Ty → ℕ → Try Values
  unfolding elements_from
  splice_spread (Value.aligned av) ty expected =
      if is_count (ty >>? element_count) expected
      then elements_from (Value.aligned av) ty 0 expected
      else if length av.value == expected
      then atom_elements av 0 expected
      else err InterpreterError.type_error
  splice_spread (Value.tuple vs) ty expected =
      if values_length vs == expected then ok vs else err InterpreterError.type_error
  splice_spread _ ty expected = err InterpreterError.type_error

  abbrev variant_slice : Ty → ℕ → List ℕ → Option (ℕ × ℕ)
  variant_slice (Ty.struct name fs) offset elt = layout_from_fields fab fs >>? λ layout.
      field_slice layout elt >>? λ (sub_offset, len). some (offset + sub_offset, len)
  variant_slice _ offset elt = none

  -- The name and the offset of the live variant.
  abbrev live_variant : AlignedValue → List (List ℕ × ℕ × ℕ) → Option (List ℕ × ℕ)
  live_variant av layout = field_slice layout (bytes_of "is_left") >>? λ (at_disc, disc_len).
      field_slice layout (bytes_of "left") >>? λ (at_left, left_len).
      field_slice layout (bytes_of "right") >>? λ (at_right, right_len).
      slice_atoms av (at_disc, at_disc + disc_len) >>? λ disc. some (
        if is_truthy (Value.aligned disc)
        then (bytes_of "left", at_left)
        else (bytes_of "right", at_right))

  unfoldable pub either_variant_field_slice : Fields → AlignedValue → List ℕ → Option (ℕ × ℕ)
  unfolding layout_from_fields slice_atoms
  either_variant_field_slice fs av elt = layout_from_fields fab fs >>? λ layout.
      live_variant av layout >>? λ (variant, offset).
      field_type_of fs variant >>? λ t. variant_slice (resolved t) offset elt

  abbrev some_or : Option (ℕ × ℕ) → Option (ℕ × ℕ) → Option (ℕ × ℕ)
  some_or (some r) other = some r
  some_or none other = other

  abbrev flat_field : AlignedValue → Option Ty → List ℕ → Try Value
  flat_field av (some (Ty.struct name fs)) elt =
      ok_or (layout_from_fields fab fs) InterpreterError.type_error >>= λ layout.
      ok_or (some_or (field_slice layout elt) (either_variant_field_slice fs av elt))
        InterpreterError.type_error
      >>= λ (offset, len). aligned_slice av (offset, offset + len)
  flat_field av _ elt = err InterpreterError.type_error

  abbrev resolved_type : Option Ty → Option Ty
  resolved_type ty = ty >>? λ t. some (resolved t)

  -- `elt-ref`, once the receiver has its value
  unfoldable pub field_of_value : Value → Option Ty → List ℕ → Try Value
  unfolding either_variant_field_slice layout_from_fields slice_atoms
  field_of_value (Value.struct ms) ty elt = struct_member ms elt
  field_of_value (Value.aligned av) ty elt = flat_field av (resolved_type ty) elt
  field_of_value _ ty elt = err InterpreterError.type_error

  abbrev bytes_of_elements : Values → Try (List ℕ)
  bytes_of_elements Values.no_values = ok []
  bytes_of_elements (Values.more_values v vs) =
      ok_or (value_to_u128 fab v) InterpreterError.type_error >>= λ n.
      byte_of n >>= λ b. bytes_of_elements vs >>= λ bs. ok (b ∷ bs)

  unfoldable pub vector_value_to_bytes : Value → ℕ → Try (List ℕ)
  vector_value_to_bytes (Value.tuple vs) n =
      if values_length vs == n then bytes_of_elements vs else err InterpreterError.type_error
  vector_value_to_bytes (Value.aligned av) n =
      if length av.value == n then bytes_of_atoms av.value else err InterpreterError.type_error
  vector_value_to_bytes _ n = err InterpreterError.type_error

  abbrev pub bytes_value : List ℕ → ℕ → Try Value
  bytes_value bs n = bytes_aligned_value fab bs n >>= λ av. ok (Value.aligned av)

  abbrev u8_values : List ℕ → Values
  u8_values [] = Values.no_values
  u8_values (b ∷ bs) = Values.more_values (Value.aligned (fab.of_u8 b)) (u8_values bs)

  -- `bytes->vector`, once the operand has its value
  unfoldable pub vector_of_bytes : Value → ℕ → Try Value
  unfolding padded_bytes
  vector_of_bytes v n =
      ir_length n >>= λ len. padded_bytes v len >>= λ bs. ok (Value.tuple (u8_values bs))

  -- `x[start..start + n]` of a `Bytes<width>` value
  unfoldable pub bytes_slice_of : Value → ℕ → ℕ → ℕ → Try Value
  unfolding padded_bytes
  bytes_slice_of v width start n =
      if ltb width n || ltb (width - n) start
      then err InterpreterError.type_error
      else (padded_bytes v width >>= λ bs. bytes_value (take n (drop start bs)) n)
