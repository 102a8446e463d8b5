-- ===== src/Ir/Parse/RoundTrip.antt =====
-- crates/compact/analyzed-ir/src/parse.rs: the parser of types on the forms that `form` writes.
use midnight_rs.Base.{and-true, ℕ, ◌^◌, ◌≡◌, refl, ◌∙◌, Bool, true, false, ◌&&◌, List, [], ◌∷◌, ltb}
use midnight_rs.Ir.Datum.{Sexp, Sexps, sym, str, int, bool, bytes, list, pair, cons}
use midnight_rs.Ir.Model.{Curve, FieldType, Ty, Tys, Fields, Circuits, AdtArgs}
use midnight_rs.Ir.Parse.{
  Parsed, ◌>>=◌, Head, head_of, curve, field_type, symbols, nat, ty, types, fields, circuits,
  adt_args,
}
use midnight_rs.Ir.Parse.Form.{
  number_form, curve_form, field_form, symbols_form, form, forms, fields_form, circuits_form,
  args_form, is_formed, are_formed, fields_formed, circuits_formed, args_formed, is_adt_head,
  is_adt_head-eq,
}

curve-curve_form : (c : Curve) → curve (curve_form c) ≡ Parsed.ok c
curve-curve_form Curve.jubjub = refl
curve-curve_form Curve.secp256k1 = refl
curve-curve_form Curve.secp256r1 = refl
curve-curve_form Curve.curve25519 = refl

field_type-field_form : (f : FieldType) → field_type (field_form f) ≡ Parsed.ok f
field_type-field_form FieldType.native = refl
field_type-field_form (FieldType.base c) = rw (curve-curve_form c)
field_type-field_form (FieldType.scalar c) = rw (curve-curve_form c)

symbols-symbols_form : (vs : List (List ℕ)) → symbols (symbols_form vs) ≡ Parsed.ok vs
symbols-symbols_form [] = refl
symbols-symbols_form (v ∷ vs) = rw (symbols-symbols_form vs)

nat-number_form : (n : ℕ) → ltb n (2 ^ 64) ≡ true → nat (number_form n) ≡ Parsed.ok n
nat-number_form n h = rw h

abbrev is_int : Sexp → Bool
is_int (int i) = true
is_int _ = false

form_no_int : (t : Ty) → is_int (form t) ≡ false
unfolding form
form_no_int Ty.boolean = refl
form_no_int Ty.unknown = refl
form_no_int (Ty.field f) = refl
form_no_int (Ty.unsigned n) = refl
form_no_int (Ty.point c) = refl
form_no_int (Ty.bytes n) = refl
form_no_int (Ty.opaque v) = refl
form_no_int (Ty.vector n t) = refl
form_no_int (Ty.tuple ts) = refl
form_no_int (Ty.struct name fs) = refl
form_no_int (Ty.enum name vs) = refl
form_no_int (Ty.alias nominal name t) = refl
form_no_int (Ty.contract name cs) = refl
form_no_int (Ty.adt name found) = refl
form_no_int (Ty.type_var v) = refl

-- An argument of a ledger ADT that is a type is not read as a number.
adt_args_type :
    (s : Sexp) (ss : Sexps)
    → is_int s ≡ false
    → adt_args (cons s ss)
      ≡ (ty s >>= λ t. adt_args ss >>= λ found. Parsed.ok (AdtArgs.ty_arg t found))
unfolding ty
adt_args_type (sym v) ss h = refl
adt_args_type (str v) ss h = refl
adt_args_type (int i) ss h = cc
adt_args_type (bool b) ss h = refl
adt_args_type (bytes b) ss h = refl
adt_args_type (list l) ss h = refl
adt_args_type (pair a b) ss h = refl

adt_args-form :
    (t : Ty) (ss : Sexps) (found : AdtArgs)
    → ty (form t) ≡ Parsed.ok t
    → adt_args ss ≡ Parsed.ok found
    → adt_args (cons (form t) ss) ≡ Parsed.ok (AdtArgs.ty_arg t found)
adt_args-form t ss found h hs = adt_args_type (form t) ss (form_no_int t) ∙ (rw (h, hs))

ty_adt :
    (name : List ℕ) (args : Sexps) (found : AdtArgs)
    → head_of name ≡ Head.adt
    → adt_args args ≡ Parsed.ok found
    → ty (list (cons (sym name) args)) ≡ Parsed.ok (Ty.adt name found)
unfolding ty
ty_adt name args found h ha = rw (ty, h, ha)

mutual
  unfolding ty form is_formed

  form_parsed : (t : Ty) → is_formed t ≡ true → ty (form t) ≡ Parsed.ok t
  form_parsed Ty.boolean h = refl
  form_parsed Ty.unknown h = refl
  form_parsed (Ty.field f) h = rw (field_type-field_form f)
  form_parsed (Ty.unsigned n) h = refl
  form_parsed (Ty.point c) h = rw (curve-curve_form c)
  form_parsed (Ty.bytes n) h = rw h
  form_parsed (Ty.opaque v) h = refl
  form_parsed (Ty.vector n t) h =
      let (hn, ht) = and-true (ltb n (2 ^ 64)) (is_formed t) h in rw (hn, form_parsed t ht)
  form_parsed (Ty.tuple ts) h = rw (types-forms ts h)
  form_parsed (Ty.struct name fs) h = rw (fields-fields_form fs h)
  form_parsed (Ty.enum name vs) h = rw (symbols-symbols_form vs)
  form_parsed (Ty.alias nominal name t) h = rw (form_parsed t h)
  form_parsed (Ty.contract name cs) h = rw (circuits-circuits_form cs h)
  form_parsed (Ty.adt name found) h =
      let (hn, ha) = and-true (is_adt_head (head_of name)) (args_formed found) h in
      ty_adt name (args_form found) found (is_adt_head-eq (head_of name) hn)
        (adt_args-args_form found ha)
  form_parsed (Ty.type_var v) h = refl

  types-forms : (ts : Tys) → are_formed ts ≡ true → types (forms ts) ≡ Parsed.ok ts
  types-forms Tys.no_types h = refl
  types-forms (Tys.more_types t ts) h =
      let (ht, hts) = and-true (is_formed t) (are_formed ts) h in
      rw (form_parsed t ht, types-forms ts hts)

  fields-fields_form :
      (fs : Fields) → fields_formed fs ≡ true → fields (fields_form fs) ≡ Parsed.ok fs
  fields-fields_form Fields.no_fields h = refl
  fields-fields_form (Fields.more_fields name t fs) h =
      let (ht, hfs) = and-true (is_formed t) (fields_formed fs) h in
      rw (form_parsed t ht, fields-fields_form fs hfs)

  circuits-circuits_form :
      (cs : Circuits) → circuits_formed cs ≡ true → circuits (circuits_form cs) ≡ Parsed.ok cs
  circuits-circuits_form Circuits.no_circuits h = refl
  circuits-circuits_form (Circuits.more_circuits name pure args result cs) h =
      let (ha, hr) = and-true (are_formed args) (is_formed result && circuits_formed cs) h in
      let (ht, hcs) = and-true (is_formed result) (circuits_formed cs) hr in
      rw (types-forms args ha, form_parsed result ht, circuits-circuits_form cs hcs)

  adt_args-args_form :
      (found : AdtArgs) → args_formed found ≡ true → adt_args (args_form found) ≡ Parsed.ok found
  adt_args-args_form AdtArgs.no_args h = refl
  adt_args-args_form (AdtArgs.nat_arg n found) h =
      let (hn, ha) = and-true (ltb n (2 ^ 64)) (args_formed found) h in
      rw (hn, adt_args-args_form found ha)
  adt_args-args_form (AdtArgs.ty_arg t found) h =
      let (ht, ha) = and-true (is_formed t) (args_formed found) h in
      adt_args-form t (args_form found) found (form_parsed t ht) (adt_args-args_form found ha)

-- Every type whose lengths fit in 64 bits, and whose ledger ADTs have names of their own, is
-- parsed from its form.
pub ty-form : (t : Ty) → is_formed t ≡ true → ty (form t) ≡ Parsed.ok t
ty-form t h = form_parsed t h
