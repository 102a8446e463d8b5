-- ===== src/Interpreter/Eval.antt =====
-- crates/compact/interpreter/src/lib.rs: `eval_expr`, and the run of a circuit. `step` is the body of
-- `eval_expr`, whose recursive calls are `ev`; `eval` runs it on fuel.
use midnight_rs.Base.{
  ℕ, zero, suc, Bool, not, Option, none, some, List, [], ◌∷◌, ltb, leb, ◌==◌, if◌then◌else◌, Result,
  ok_or,
}
use midnight_rs.Ir.Text.{bytes_of, eq_text}
use midnight_rs.Ir.Model.{FieldType, Ty, resolved}
use midnight_rs.Ir.Expr.{Expr, Exprs}
use midnight_rs.Runtime.Value.{
  Value, InterpreterError, Try, ArithOp, is_foreign, ir_length, value_to_fr,
}
use midnight_rs.Runtime.Encode.{fields_length, encode_typed, default_value, check_type}
use midnight_rs.Interpreter.Infer.{native_field}
use midnight_rs.Interpreter.Numbers.{
  is_truthy, eval_literal, eval_cast, arith_values, values_equal, as_integer, as_index,
  refuse_foreign_cast,
}
use midnight_rs.Interpreter.Elements.{
  indexed_element, slice_elements, byte_at, field_of_value, vector_value_to_bytes, bytes_value,
  vector_of_bytes, bytes_slice_of,
}
use midnight_rs.Interpreter.Monad.{Outcome, Setting, Run, pure, ◌>>=◌, try, refuse, local, infer}
use midnight_rs.Interpreter.Ops.{exec_ledger_query}
use midnight_rs.Interpreter.Calls.{
  eval_all, eval_call, eval_seq, eval_tuple, eval_bindings, eval_map, eval_fold,
}
use midnight_rs.Base.Results.{◌>>=◌ as then_try}

-- `variants.iter().position(..)`
abbrev pub position : List ℕ → List (List ℕ) → Option ℕ
position name [] = none
position name (v ∷ vs) =
    if eq_text v name
    then some 0
    else elim (position name vs) [ some i ↦ some (suc i) | none ↦ none ]

abbrev pub enum_index : Ty → List ℕ → Try Value
enum_index (Ty.enum name variants) elt =
    then_try (ok_or (position elt variants) InterpreterError.type_error)
      λ i. Result.ok (Value.integer i)
enum_index _ elt = Result.err InterpreterError.type_error

abbrev refuse_field_source : Ty → Try Unit
refuse_field_source (Ty.field f) = refuse_foreign_cast f
refuse_field_source _ = Result.ok tt

abbrev bytes_width : Ty → Try ℕ
bytes_width (Ty.bytes n) = ir_length n
bytes_width _ = Result.err InterpreterError.type_error

abbrev is_self : List ℕ → Bool
is_self op = eq_text op (bytes_of "self")

-- A struct with so many fields
abbrev struct_of : Ty → ℕ → Try Unit
struct_of (Ty.struct name fs) n =
    if fields_length fs == n then Result.ok tt else Result.err InterpreterError.type_error
struct_of _ n = Result.err InterpreterError.type_error

abbrev exprs_length : Exprs → ℕ
exprs_length Exprs.no_exprs = 0
exprs_length (Exprs.more_exprs e es) = suc (exprs_length es)

module _ (s : Setting) (ev : Expr → Run Value) where
  unfoldable pub eval_as_integer : Expr → Run ℕ
  eval_as_integer e = ev e >>= λ v. try (as_integer s.fab v)

  unfoldable pub eval_index : Expr → Run ℕ
  eval_index e = ev e >>= λ v. try (as_index s.fab v)

  unfoldable pub eval_compare : (ℕ → ℕ → Bool) → Expr → Expr → Run Value
  unfolding eval_as_integer
  eval_compare cmp left right =
      eval_as_integer left >>= λ l. eval_as_integer right >>= λ r. pure (Value.bool (cmp l r))

  unfoldable pub eval_equal : Ty → Expr → Expr → Run Bool
  unfolding values_equal
  eval_equal ty left right = ev left >>= λ l. ev right >>= λ r. try (values_equal s.fab l r ty)

  unfoldable pub eval_arith : Ty → ArithOp → Expr → Expr → Run Value
  unfolding arith_values
  eval_arith ty op left right = try (check_type ty) >>= λ u.
      ev left >>= λ l. ev right >>= λ r. try (arith_values s.fab ty op l r)

  -- A cast whose types have been checked
  unfoldable pub cast_of : Try Unit → Ty → Ty → Expr → Run Value
  unfolding eval_cast
  cast_of checks from to e = try checks >>= λ u. ev e >>= λ v. try (eval_cast s.fab v from to)

  unfoldable pub field_bytes : FieldType → Value → ℕ → Try Value
  field_bytes f v n =
      if is_foreign f
      then (then_try (s.fab.foreign_bytes f v) λ bs. bytes_value s.fab bs n)
      else (then_try (ok_or (value_to_fr s.fab v) InterpreterError.type_error)
          λ fr. bytes_value s.fab (s.fab.fr_bytes fr) n)

  abbrev assert_value : Value → List ℕ → Try Value
  assert_value v message =
      if is_truthy v
      then Result.ok Value.void
      else Result.err (InterpreterError.assertion_failed message)

  unfoldable pub self_address : List ℕ → Try Unit
  self_address op =
      if is_self op
      then (if s.has_address then Result.ok tt else Result.err InterpreterError.no_contract_address)
      else Result.ok tt

  unfoldable pub eval_new : Ty → Exprs → Run Value
  unfolding eval_all encode_typed
  eval_new ty es = try (check_type ty) >>= λ u. try (struct_of ty (exprs_length es)) >>= λ u'.
      eval_all s ev es >>= λ vs.
      try (encode_typed s.fab ty (Value.tuple vs)) >>= λ av. pure (Value.aligned av)

  unfoldable pub eval_bytes_slice : Ty → Expr → Expr → ℕ → Run Value
  unfolding eval_index bytes_slice_of
  eval_bytes_slice ty e index len = try (check_type ty) >>= λ u. ev e >>= λ v.
      eval_index index >>= λ start. try (ir_length len) >>= λ n.
      try (bytes_width (resolved ty)) >>= λ width. try (bytes_slice_of s.fab v width start n)

  abbrev pub branch : Bool → Expr → Expr → Run Value
  branch b t e = if b then ev t else ev e

  unfoldable pub step : Expr → Run Value
  unfolding eval_literal default_value exec_ledger_query eval_seq eval_tuple eval_bindings eval_call
      eval_arith eval_equal eval_compare eval_index indexed_element eval_new cast_of field_of_value
      field_bytes vector_of_bytes vector_value_to_bytes eval_map eval_fold byte_at slice_elements
      eval_bytes_slice self_address
  step (Expr.quote literal) = try (eval_literal s.fab literal)
  step (Expr.var_ref id) = local id
  step (Expr.default ty) = try (check_type ty) >>= λ u. try (default_value s.fab ty)
  step (Expr.assert e message) = ev e >>= λ v. try (assert_value v message)
  step (Expr.public_ledger field class path op result is args) =
      try (check_type result) >>= λ u. try (self_address op) >>= λ u'. exec_ledger_query s ev is
  step (Expr.emit version tag len payload is) = exec_ledger_query s ev is >>= λ v. pure Value.void
  step (Expr.seq items) = eval_seq s ev Value.void items
  step (Expr.return e) = ev e
  step (Expr.tuple args) = eval_tuple s ev args
  step (Expr.vector_lit args) = eval_tuple s ev args
  step (Expr.let_star bs body) = eval_bindings s ev bs >>= λ u. ev body
  step (Expr.call name args) = eval_call s ev name args
  step (Expr.add ty l r) = eval_arith ty ArithOp.add l r
  step (Expr.sub ty l r) = eval_arith ty ArithOp.sub l r
  step (Expr.mul ty l r) = eval_arith ty ArithOp.mul l r
  step (Expr.eq ty l r) = eval_equal ty l r >>= λ b. pure (Value.bool b)
  step (Expr.neq ty l r) = eval_equal ty l r >>= λ b. pure (Value.bool (not b))
  step (Expr.lt n l r) = eval_compare (λ a b. ltb a b) l r
  step (Expr.le n l r) = eval_compare (λ a b. leb a b) l r
  step (Expr.gt n l r) = eval_compare (λ a b. ltb b a) l r
  step (Expr.ge n l r) = eval_compare (λ a b. leb b a) l r
  step (Expr.cond c t e) = ev c >>= λ v. branch (is_truthy v) t e
  step (Expr.vector_ref ty e index) =
      ev e >>= λ v. eval_index index >>= λ i. try (indexed_element s.fab v (some ty) i)
  step (Expr.tuple_ref e index) = try (ir_length index) >>= λ i.
      infer s e >>= λ t. ev e >>= λ v. try (indexed_element s.fab v t i)
  step (Expr.new ty es) = eval_new ty es
  step (Expr.cast_from_bytes ty len e) = cast_of (check_type ty) (Ty.bytes len) ty e
  step (Expr.cast_from_enum ty from e) =
      cast_of (then_try (check_type ty) λ u. check_type from) from ty e
  step (Expr.cast_to_enum ty from e) =
      cast_of (then_try (check_type ty) λ u. check_type from) from ty e
  step (Expr.safe_cast ty from e) =
      cast_of (then_try (check_type ty) λ u. check_type from) from ty e
  step (Expr.cast_to_field f from e) =
      cast_of
        (then_try (check_type from)
          λ u. then_try (refuse_foreign_cast f) λ u'. refuse_field_source (resolved from))
        from native_field e
  step (Expr.cast_from_field maxval f e) =
      cast_of (refuse_foreign_cast f) native_field (Ty.unsigned maxval) e
  step (Expr.downcast_unsigned from to e) =
      cast_of (Result.ok tt) (Ty.unsigned from) (Ty.unsigned to) e
  step (Expr.elt_ref e elt index) =
      infer s e >>= λ t. ev e >>= λ v. try (field_of_value s.fab v t elt)
  step (Expr.field_to_bytes len f e) =
      ev e >>= λ v. try (ir_length len) >>= λ n. try (field_bytes f v n)
  step (Expr.bytes_to_vector len e) = ev e >>= λ v. try (vector_of_bytes s.fab v len)
  step (Expr.vector_to_bytes len e) = ev e >>= λ v. try (ir_length len) >>= λ n.
      try (vector_value_to_bytes s.fab v n) >>= λ bs. try (bytes_value s.fab bs n)
  step (Expr.contract_call circuit receiver ty args) =
      try (check_type ty) >>= λ u. refuse InterpreterError.unsupported
  step (Expr.enum_ref ty elt) = try (check_type ty) >>= λ u. try (enum_index ty elt)
  step (Expr.map len fun args) = eval_map s ev len fun args
  step (Expr.fold len fun init ty args) = eval_fold s ev len fun init args
  step (Expr.bytes_ref ty e index) = try (check_type ty) >>= λ u. ev e >>= λ v.
      eval_index index >>= λ i. try (bytes_width (resolved ty)) >>= λ width. try (byte_at v width i)
  step (Expr.tuple_slice ty e index len) = try (check_type ty) >>= λ u. ev e >>= λ v.
      try (ir_length index) >>= λ start.
      try (ir_length len) >>= λ n. try (slice_elements s.fab v ty start n)
  step (Expr.vector_slice ty e index len) = try (check_type ty) >>= λ u. ev e >>= λ v.
      eval_index index >>= λ start.
      try (ir_length len) >>= λ n. try (slice_elements s.fab v ty start n)
  step (Expr.bytes_slice ty e index len) = eval_bytes_slice ty e index len

abbrev pub exhausted : {A : Type 0} → Run A
exhausted c = (Outcome.out_of_fuel, c)

-- `eval_expr`, with expressions nested and circuits called to a depth of the fuel
unfoldable pub eval : Setting → ℕ → Expr → Run Value
unfolding step
eval s zero e = exhausted
eval s (suc fuel) e = step s (eval s fuel) e
