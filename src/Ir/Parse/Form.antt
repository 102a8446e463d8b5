-- ===== src/Ir/Parse/Form.antt =====
-- The form of a type in the analyzed IR, in which the compiler prints it.
use midnight_rs.Base.{ℕ, ◌^◌, ◌≡◌, refl, Bool, true, false, ◌&&◌, List, [], ◌∷◌, ltb, pos}
use midnight_rs.Ir.Datum.{Sexp, Sexps, sym, str, int, bool, list, nil, cons}
use midnight_rs.Ir.Text.{bytes_of}
use midnight_rs.Ir.Model.{Curve, FieldType, Ty, Tys, Fields, Circuits, AdtArgs}
use midnight_rs.Ir.Parse.{Head, head_of}
use Prim.Native.String.{String}

abbrev tagged_form : String → Sexps → Sexp
tagged_form head args = list (cons (sym (bytes_of head)) args)

abbrev one : Sexp → Sexps
one s = cons s nil

abbrev pub number_form : ℕ → Sexp
number_form n = int (pos n)

abbrev pub curve_form : Curve → Sexp
curve_form Curve.jubjub = tagged_form "curve-jubjub" nil
curve_form Curve.secp256k1 = tagged_form "curve-secp256k1" nil
curve_form Curve.secp256r1 = tagged_form "curve-secp256r1" nil
curve_form Curve.curve25519 = tagged_form "curve-curve25519" nil

abbrev pub field_form : FieldType → Sexp
field_form FieldType.native = tagged_form "field-native" nil
field_form (FieldType.base c) = tagged_form "field-base" (one (curve_form c))
field_form (FieldType.scalar c) = tagged_form "field-scalar" (one (curve_form c))

abbrev pub symbols_form : List (List ℕ) → Sexps
symbols_form [] = nil
symbols_form (v ∷ vs) = cons (sym v) (symbols_form vs)

unfoldable mutual
  pub form : Ty → Sexp
  form Ty.boolean = tagged_form "tboolean" nil
  form Ty.unknown = tagged_form "tunknown" nil
  form (Ty.field f) = tagged_form "tfield" (one (field_form f))
  form (Ty.unsigned n) = tagged_form "tunsigned" (one (number_form n))
  form (Ty.point c) = tagged_form "tpoint" (one (curve_form c))
  form (Ty.bytes n) = tagged_form "tbytes" (one (number_form n))
  form (Ty.opaque v) = tagged_form "topaque" (one (str v))
  form (Ty.vector n t) = tagged_form "tvector" (cons (number_form n) (one (form t)))
  form (Ty.tuple ts) = tagged_form "ttuple" (forms ts)
  form (Ty.struct name fs) = tagged_form "tstruct" (cons (sym name) (fields_form fs))
  form (Ty.enum name vs) = tagged_form "tenum" (cons (sym name) (symbols_form vs))
  form (Ty.alias nominal name t) =
      tagged_form "talias" (cons (bool nominal) (cons (sym name) (one (form t))))
  form (Ty.contract name cs) = tagged_form "tcontract" (cons (sym name) (circuits_form cs))
  form (Ty.adt name found) = list (cons (sym name) (args_form found))
  form (Ty.type_var v) = sym v

  pub forms : Tys → Sexps
  forms Tys.no_types = nil
  forms (Tys.more_types t ts) = cons (form t) (forms ts)

  pub fields_form : Fields → Sexps
  fields_form Fields.no_fields = nil
  fields_form (Fields.more_fields name t fs) =
      cons (list (cons (sym name) (one (form t)))) (fields_form fs)

  pub circuits_form : Circuits → Sexps
  circuits_form Circuits.no_circuits = nil
  circuits_form (Circuits.more_circuits name pure args result cs) =
      cons
        (list (cons (sym name) (cons (bool pure) (cons (list (forms args)) (one (form result))))))
        (circuits_form cs)

  pub args_form : AdtArgs → Sexps
  args_form AdtArgs.no_args = nil
  args_form (AdtArgs.nat_arg n found) = cons (number_form n) (args_form found)
  args_form (AdtArgs.ty_arg t found) = cons (form t) (args_form found)

abbrev pub is_adt_head : Head → Bool
is_adt_head Head.adt = true
is_adt_head _ = false

-- The lengths fit the machine, and no ledger ADT has the head of another type.
unfoldable mutual
  pub is_formed : Ty → Bool
  is_formed (Ty.bytes n) = ltb n (2 ^ 64)
  is_formed (Ty.vector n t) = ltb n (2 ^ 64) && is_formed t
  is_formed (Ty.tuple ts) = are_formed ts
  is_formed (Ty.struct name fs) = fields_formed fs
  is_formed (Ty.alias nominal name t) = is_formed t
  is_formed (Ty.contract name cs) = circuits_formed cs
  is_formed (Ty.adt name found) = is_adt_head (head_of name) && args_formed found
  is_formed _ = true

  pub are_formed : Tys → Bool
  are_formed Tys.no_types = true
  are_formed (Tys.more_types t ts) = is_formed t && are_formed ts

  pub fields_formed : Fields → Bool
  fields_formed Fields.no_fields = true
  fields_formed (Fields.more_fields name t fs) = is_formed t && fields_formed fs

  pub circuits_formed : Circuits → Bool
  circuits_formed Circuits.no_circuits = true
  circuits_formed (Circuits.more_circuits name pure args result cs) =
      are_formed args && (is_formed result && circuits_formed cs)

  pub args_formed : AdtArgs → Bool
  args_formed AdtArgs.no_args = true
  args_formed (AdtArgs.nat_arg n found) = ltb n (2 ^ 64) && args_formed found
  args_formed (AdtArgs.ty_arg t found) = is_formed t && args_formed found

pub is_adt_head-eq : (h : Head) → is_adt_head h ≡ true → h ≡ Head.adt
is_adt_head-eq Head.adt e = refl
is_adt_head-eq Head.tboolean e = cc
is_adt_head-eq Head.tfield e = cc
is_adt_head-eq Head.tunsigned e = cc
is_adt_head-eq Head.tpoint e = cc
is_adt_head-eq Head.tbytes e = cc
is_adt_head-eq Head.topaque e = cc
is_adt_head-eq Head.tvector e = cc
is_adt_head-eq Head.ttuple e = cc
is_adt_head-eq Head.tstruct e = cc
is_adt_head-eq Head.tenum e = cc
is_adt_head-eq Head.talias e = cc
is_adt_head-eq Head.tcontract e = cc
is_adt_head-eq Head.tunknown e = cc
