-- ===== src/Runtime/Encode/Contract.antt =====
-- crates/compact/runtime/src/compact_types.rs: the encoding of a contract reference.
use midnight_rs.Base.{ℕ, ◌≡◌, refl, ap, List, [], ◌∷◌, ok, err, ◌>>=◌}
use midnight_rs.Ir.Model.{Ty, Fields, Circuits, contract_address}
use midnight_rs.Ir.Text.{bytes_of}
use midnight_rs.Runtime.Value.{AlignedValue, Value, Values, Try, Fab}
use midnight_rs.Runtime.Encode.{
  field_values, on_parts, encode_typed, encode_fields, one_field, as_type_error, encode_bytes,
  Given,
}

module _ (fab : Fab) where
  abbrev address_fields : Fields
  address_fields = Fields.more_fields (bytes_of "bytes") (Ty.bytes 32) Fields.no_fields

  abbrev empty : Try (List AlignedValue)
  empty = ok []

  one_field-fields : (vs : Values) → one_field fab 32 vs ≡ encode_fields fab address_fields vs
  unfolding encode_typed
  one_field-fields Values.no_values = refl
  one_field-fields (Values.more_values v vs) = on_field (as_type_error (encode_bytes fab 32 v))
    where
      on_field :
          (t : Try AlignedValue)
          → (t >>= λ a. ok (a ∷ [])) ≡ (t >>= λ a. empty >>= λ encoded. ok (a ∷ encoded))
      on_field (err e) = refl
      on_field (ok a) = refl

  on_given :
      (t : Try Given)
      → (t >>= λ given.
          on_parts given (λ vs. one_field fab 32 vs >>= λ encoded. ok (fab.concat encoded)))
        ≡ (t >>= λ given.
            on_parts given
              (λ vs. encode_fields fab address_fields vs >>= λ encoded. ok (fab.concat encoded)))
  on_given (err e) = refl
  on_given (ok (Given.flat av)) = refl
  on_given (ok (Given.parts vs)) =
      ap (λ t. t >>= λ encoded. ok (fab.concat encoded)) (one_field-fields vs)

  -- A value of a contract type is encoded as the struct of the contract's address, whatever circuits the
  -- type lists: the same result or the same error.
  pub encode_typed-contract :
      (name : List ℕ)
      → (cs : Circuits) → (v : Value)
      → encode_typed fab (Ty.contract name cs) v ≡ encode_typed fab contract_address v
  unfolding encode_typed
  encode_typed-contract name cs v = on_given (field_values address_fields v)
