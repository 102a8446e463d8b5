-- ===== src/Ir/Model.antt =====
-- crates/compact/analyzed-ir/src/model.rs: the types of the analyzed IR, and the byte width of an
-- unsigned integer. Names are the bytes of their texts.
pub mod Width
use midnight_rs.Base.{ℕ, zero, suc, ◌+◌, ◌/◌, Bool, true, false, List, [], ◌∷◌, if◌then◌else◌, ◌==◌}
use midnight_rs.Ir.Text.{bytes_of}

pub data Curve : Type 0 where
  jubjub secp256k1 secp256r1 curve25519 : Curve

pub data FieldType : Type 0 where
  native : FieldType
  base scalar : Curve → FieldType

mutual
  -- `Type`
  pub data Ty : Type 0 where
    boolean unknown : Ty
    field : FieldType → Ty
    unsigned : ℕ → Ty
    point : Curve → Ty
    bytes : ℕ → Ty
    opaque : List ℕ → Ty
    vector : ℕ → Ty → Ty
    tuple : Tys → Ty
    struct : List ℕ → Fields → Ty
    enum : List ℕ → List (List ℕ) → Ty
    alias : Bool → List ℕ → Ty → Ty
    contract : List ℕ → Circuits → Ty
    adt : List ℕ → AdtArgs → Ty
    type_var : List ℕ → Ty

  -- `Vec<Type>`
  pub data Tys : Type 0 where
    no_types : Tys
    more_types : Ty → Tys → Tys

  -- `Vec<(String, Type)>`
  pub data Fields : Type 0 where
    no_fields : Fields
    more_fields : List ℕ → Ty → Fields → Fields

  -- `Vec<ContractCircuit>`: name, pure, argument types and result type of each
  pub data Circuits : Type 0 where
    no_circuits : Circuits
    more_circuits : List ℕ → Bool → Tys → Ty → Circuits → Circuits

  -- `Vec<AdtArg>`
  pub data AdtArgs : Type 0 where
    no_args : AdtArgs
    nat_arg : ℕ → AdtArgs → AdtArgs
    ty_arg : Ty → AdtArgs → AdtArgs

abbrev pub unit : Ty
unit = Ty.tuple Tys.no_types

abbrev pub contract_address : Ty
contract_address =
    Ty.struct (bytes_of "ContractAddress")
      (Fields.more_fields (bytes_of "bytes") (Ty.bytes 32) Fields.no_fields)

abbrev pub resolved : Ty → Ty
resolved (Ty.alias nominal name t) = resolved t
resolved t = t

abbrev is_empty_tuple : Ty → Bool
is_empty_tuple (Ty.tuple Tys.no_types) = true
is_empty_tuple _ = false

abbrev pub is_unit : Ty → Bool
is_unit t = is_empty_tuple (resolved t)

-- `BigUint::bits`: the number of bits up to the highest one that is set.
unfoldable pub bits_of : ℕ → ℕ → ℕ
bits_of zero n = 0
bits_of (suc f) n = let more = bits_of f (n / 2) in if n == 0 then 0 else suc more

unfoldable pub bits : ℕ → ℕ
unfolding bits_of
bits n = bits_of n n

abbrev pub width_of : ℕ → ℕ
width_of zero = 1
width_of (suc b) = (suc b + 7) / 8

unfoldable pub uint_byte_width : ℕ → ℕ
unfolding bits
uint_byte_width maxval = width_of (bits maxval)
