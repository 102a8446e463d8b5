-- ===== src/Ir/Parse.antt =====
-- crates/compact/analyzed-ir/src/parse.rs: the parser of types, from the data that the reader gives.
pub mod Form
pub mod RoundTrip
use midnight_rs.Base.{
  ℕ, zero, suc, ◌^◌, Bool, true, false, List, [], ◌∷◌, ltb, if◌then◌else◌, pos, negsuc,
}
use midnight_rs.Ir.Datum.{Sexp, Sexps, sym, str, int, bool, list, nil, cons}
use midnight_rs.Ir.Text.{bytes_of, eq_text}
use midnight_rs.Ir.Model.{Curve, FieldType, Ty, Tys, Fields, Circuits, AdtArgs}

-- `Error`, by its message.
pub data Fault : Type 0 where
  unrecognized no_symbol no_string no_boolean no_natural no_integer out_of_u64 no_list headless :
      Fault

-- `R<T>`, with the panic of an index that is out of range.
pub data Parsed {ℓ} (A : Type ℓ) : Type ℓ where
  ok : A → Parsed A
  err : Fault → Parsed A
  panic : Parsed A

infixl 5 ◌>>=◌
abbrev pub ◌>>=◌ {ℓ κ} : {A : Type ℓ} {B : Type κ} → Parsed A → (A → Parsed B) → Parsed B
Parsed.ok a >>= k = k a
Parsed.err e >>= k = Parsed.err e
Parsed.panic >>= k = Parsed.panic

-- `sym`
abbrev pub symbol : Sexp → Parsed (List ℕ)
symbol (sym s) = Parsed.ok s
symbol _ = Parsed.err Fault.no_symbol

abbrev pub string : Sexp → Parsed (List ℕ)
string (str s) = Parsed.ok s
string _ = Parsed.err Fault.no_string

abbrev pub boolean : Sexp → Parsed Bool
boolean (bool b) = Parsed.ok b
boolean _ = Parsed.err Fault.no_boolean

abbrev pub big_nat : Sexp → Parsed ℕ
big_nat (int (pos n)) = Parsed.ok n
big_nat (int (negsuc n)) = Parsed.err Fault.no_natural
big_nat _ = Parsed.err Fault.no_integer

abbrev pub u64 : ℕ → Parsed ℕ
u64 n = if ltb n (2 ^ 64) then Parsed.ok n else Parsed.err Fault.out_of_u64

abbrev pub nat : Sexp → Parsed ℕ
nat s = big_nat s >>= u64

-- `l[1]`, on what follows the head.
abbrev pub argument : Sexps → Parsed Sexp
argument nil = Parsed.panic
argument (cons s ss) = Parsed.ok s

abbrev pub curve_named : List ℕ → Parsed Curve
curve_named h =
    if eq_text h (bytes_of "curve-jubjub")
    then Parsed.ok Curve.jubjub
    else if eq_text h (bytes_of "curve-secp256k1")
    then Parsed.ok Curve.secp256k1
    else if eq_text h (bytes_of "curve-secp256r1")
    then Parsed.ok Curve.secp256r1
    else if eq_text h (bytes_of "curve-curve25519")
    then Parsed.ok Curve.curve25519
    else Parsed.err Fault.unrecognized

abbrev pub curve : Sexp → Parsed Curve
curve (list (cons (sym h) rest)) = curve_named h
curve _ = Parsed.err Fault.unrecognized

abbrev pub field_named : List ℕ → Sexps → Parsed FieldType
field_named h args =
    if eq_text h (bytes_of "field-native")
    then Parsed.ok FieldType.native
    else if eq_text h (bytes_of "field-base")
    then (argument args >>= λ s. curve s >>= λ c. Parsed.ok (FieldType.base c))
    else if eq_text h (bytes_of "field-scalar")
    then (argument args >>= λ s. curve s >>= λ c. Parsed.ok (FieldType.scalar c))
    else Parsed.err Fault.unrecognized

abbrev pub field_type : Sexp → Parsed FieldType
field_type (list (cons (sym h) args)) = field_named h args
field_type (list _) = Parsed.err Fault.unrecognized
field_type _ = Parsed.err Fault.no_list

-- `iter().map(|v| sym(v, ..)).collect()`
abbrev pub symbols : Sexps → Parsed (List (List ℕ))
symbols nil = Parsed.ok []
symbols (cons s ss) = symbol s >>= λ v. symbols ss >>= λ vs. Parsed.ok (v ∷ vs)

-- The heads of types.
pub data Head : Type 0 where
  tboolean tfield tunsigned tpoint tbytes topaque tvector ttuple tstruct tenum talias tcontract :
      Head
  tunknown adt : Head

abbrev pub head_of : List ℕ → Head
head_of h =
    if eq_text h (bytes_of "tboolean")
    then Head.tboolean
    else if eq_text h (bytes_of "tfield")
    then Head.tfield
    else if eq_text h (bytes_of "tunsigned")
    then Head.tunsigned
    else if eq_text h (bytes_of "tpoint")
    then Head.tpoint
    else if eq_text h (bytes_of "tbytes")
    then Head.tbytes
    else if eq_text h (bytes_of "topaque")
    then Head.topaque
    else if eq_text h (bytes_of "tvector")
    then Head.tvector
    else if eq_text h (bytes_of "ttuple")
    then Head.ttuple
    else if eq_text h (bytes_of "tstruct")
    then Head.tstruct
    else if eq_text h (bytes_of "tenum")
    then Head.tenum
    else if eq_text h (bytes_of "talias")
    then Head.talias
    else if eq_text h (bytes_of "tcontract")
    then Head.tcontract
    else if eq_text h (bytes_of "tunknown")
    then Head.tunknown
    else Head.adt

abbrev pub enum_type : Sexps → Parsed Ty
enum_type nil = Parsed.panic
enum_type (cons n vs) =
    symbol n >>= λ name. symbols vs >>= λ variants. Parsed.ok (Ty.enum name variants)

unfoldable mutual
  pub ty : Sexp → Parsed Ty
  ty (sym v) = Parsed.ok (Ty.type_var v)
  ty (list (cons (sym h) args)) = elim (head_of h) [
    | Head.tboolean ↦ Parsed.ok Ty.boolean
    | Head.tfield ↦ argument args >>= λ s. field_type s >>= λ f. Parsed.ok (Ty.field f)
    | Head.tunsigned ↦ argument args >>= λ s. big_nat s >>= λ n. Parsed.ok (Ty.unsigned n)
    | Head.tpoint ↦ argument args >>= λ s. curve s >>= λ c. Parsed.ok (Ty.point c)
    | Head.tbytes ↦ argument args >>= λ s. nat s >>= λ n. Parsed.ok (Ty.bytes n)
    | Head.topaque ↦ argument args >>= λ s. string s >>= λ v. Parsed.ok (Ty.opaque v)
    | Head.tvector ↦ vector_type args
    | Head.ttuple ↦ types args >>= λ ts. Parsed.ok (Ty.tuple ts)
    | Head.tstruct ↦ struct_type args
    | Head.tenum ↦ enum_type args
    | Head.talias ↦ alias_type args
    | Head.tcontract ↦ contract_type args
    | Head.tunknown ↦ Parsed.ok Ty.unknown
    | Head.adt ↦ adt_args args >>= λ found. Parsed.ok (Ty.adt h found)
  ]
  ty (list _) = Parsed.err Fault.headless
  ty _ = Parsed.err Fault.no_list

  pub types : Sexps → Parsed Tys
  types nil = Parsed.ok Tys.no_types
  types (cons s ss) = ty s >>= λ t. types ss >>= λ ts. Parsed.ok (Tys.more_types t ts)

  pub vector_type : Sexps → Parsed Ty
  vector_type nil = Parsed.panic
  vector_type (cons n nil) = nat n >>= λ len. Parsed.panic
  vector_type (cons n (cons t ss)) = nat n >>= λ len. ty t >>= λ t'. Parsed.ok (Ty.vector len t')

  pub struct_type : Sexps → Parsed Ty
  struct_type nil = Parsed.panic
  struct_type (cons n fs) =
      symbol n >>= λ name. fields fs >>= λ fields'. Parsed.ok (Ty.struct name fields')

  pub fields : Sexps → Parsed Fields
  fields nil = Parsed.ok Fields.no_fields
  fields (cons (list (cons n (cons t nil))) ss) = symbol n >>= λ name.
      ty t >>= λ t'. fields ss >>= λ fs. Parsed.ok (Fields.more_fields name t' fs)
  fields (cons (list _) ss) = Parsed.err Fault.unrecognized
  fields (cons _ ss) = Parsed.err Fault.no_list

  pub alias_type : Sexps → Parsed Ty
  alias_type nil = Parsed.panic
  alias_type (cons b nil) = boolean b >>= λ nominal. Parsed.panic
  alias_type (cons b (cons n nil)) = boolean b >>= λ nominal. symbol n >>= λ name. Parsed.panic
  alias_type (cons b (cons n (cons t ss))) = boolean b >>= λ nominal.
      symbol n >>= λ name. ty t >>= λ t'. Parsed.ok (Ty.alias nominal name t')

  pub contract_type : Sexps → Parsed Ty
  contract_type nil = Parsed.panic
  contract_type (cons n cs) =
      symbol n >>= λ name. circuits cs >>= λ circuits'. Parsed.ok (Ty.contract name circuits')

  -- `contract_circuit` on each
  pub circuits : Sexps → Parsed Circuits
  circuits nil = Parsed.ok Circuits.no_circuits
  circuits (cons (list (cons n (cons p (cons targs (cons r nil))))) ss) = symbol n >>= λ name.
      boolean p >>= λ pure. types_in targs >>= λ args. ty r >>= λ result.
      circuits ss >>= λ cs. Parsed.ok (Circuits.more_circuits name pure args result cs)
  circuits (cons (list _) ss) = Parsed.err Fault.unrecognized
  circuits (cons _ ss) = Parsed.err Fault.no_list

  pub types_in : Sexp → Parsed Tys
  types_in (list ss) = types ss
  types_in _ = Parsed.err Fault.no_list

  -- `adt_arg` on each
  pub adt_args : Sexps → Parsed AdtArgs
  adt_args nil = Parsed.ok AdtArgs.no_args
  adt_args (cons (int i) ss) =
      nat (int i) >>= λ n. adt_args ss >>= λ found. Parsed.ok (AdtArgs.nat_arg n found)
  adt_args (cons s ss) = ty s >>= λ t. adt_args ss >>= λ found. Parsed.ok (AdtArgs.ty_arg t found)
