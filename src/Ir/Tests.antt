-- ===== src/Ir/Tests.antt =====
-- Types, names and widths, and the theorems there.
use midnight_rs.Base.{◌*◌, ◌-◌, ◌^◌, ◌<◌, ◌≤◌, ◌≡◌, ◌⊎◌, refl, true, false, pos}
use midnight_rs.Ir.Datum.{sym, int, list, nil, cons}
use midnight_rs.Ir.Text.{bytes_of}
use midnight_rs.Ir.Model.{
  Curve, FieldType, Ty, Tys, Circuits, AdtArgs, contract_address, uint_byte_width,
}
use midnight_rs.Ir.Model.Width.{uint_byte_width_fewest}
use midnight_rs.Ir.Parse.{Parsed, Fault, ty}
use midnight_rs.Ir.Parse.Form.{form, is_formed}
use midnight_rs.Ir.Parse.RoundTrip.{ty-form}

-- Map<Field, Vector<3, Uint<0..255>>>, behind an alias, and a contract with a circuit.
abbrev balances : Ty
balances = Ty.alias true (bytes_of "Balances") (
    Ty.adt (bytes_of "Map") (
      AdtArgs.ty_arg (Ty.field (FieldType.base Curve.jubjub))
        (AdtArgs.nat_arg 7 (AdtArgs.ty_arg (Ty.vector 3 (Ty.unsigned 255)) AdtArgs.no_args))))

abbrev token : Ty
token = Ty.contract (bytes_of "Token") (
    Circuits.more_circuits (bytes_of "mint") false
      (Tys.more_types balances (Tys.more_types contract_address Tys.no_types)) Ty.boolean
      Circuits.no_circuits)

ty-form_example : ty (form token) ≡ Parsed.ok token
unfolding is_formed
ty-form_example = ty-form token refl

-- A field type without its field is not an error of the parser.
field_missing : ty (list (cons (sym (bytes_of "tfield")) nil)) ≡ Parsed.panic
unfolding ty
field_missing = refl

-- A length that a `u64` does not hold is.
too_long :
    ty (list (cons (sym (bytes_of "tbytes")) (cons (int (pos (2 ^ 64))) nil)))
    ≡ Parsed.err Fault.out_of_u64
unfolding ty
too_long = refl

-- `Uint<24>` takes three bytes.
uint_byte_width_fewest_example :
    (0 < uint_byte_width 0xFFFFFF)
    × (0xFFFFFF < 2 ^ (8 * uint_byte_width 0xFFFFFF))
    × ((uint_byte_width 0xFFFFFF ≡ 1) ⊎ (2 ^ (8 * (uint_byte_width 0xFFFFFF - 1)) ≤ 0xFFFFFF))
uint_byte_width_fewest_example = uint_byte_width_fewest 0xFFFFFF
