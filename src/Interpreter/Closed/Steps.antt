-- ===== src/Interpreter/Closed/Steps.antt =====
-- crates/compact/interpreter/src/lib.rs: lemmas on a step of `eval_expr`, on an evaluation and on the run
-- of a body, for a relation between runs.
use midnight_rs.Base.{ℕ, zero, suc, ◌≤◌, arith, Bool}
use midnight_rs.Ir.Model.{Ty}
use midnight_rs.Ir.Expr.{Circuit, Expr, Exprs}
use midnight_rs.Runtime.Value.{Value, Try, ArithOp}
use midnight_rs.Interpreter.Infer.{native_field}
use midnight_rs.Interpreter.Monad.{Setting, Run, pure}
use midnight_rs.Interpreter.Eval.{
  eval_as_integer, eval_index, eval_compare, eval_equal, eval_arith, cast_of, eval_new,
  eval_bytes_slice, step, eval, exhausted,
}
use midnight_rs.Interpreter.Run.{run_body}
use midnight_rs.Interpreter.Closed.{Relation, IsClosed}
use midnight_rs.Interpreter.Closed.Calls.{
  pure_related, on_test, all_related, call_related, seq_related, tuple_related, bindings_related,
  map_related, fold_related,
}
use midnight_rs.Interpreter.Closed.Parts.{AllExprs, Within, every-Within}
use midnight_rs.Interpreter.Closed.Operands.{query_related}

module _ (s : Setting) (R : Relation) (C : IsClosed s R) where
  module _ (P : Expr → Type 0) (ev ev' : Expr → Run Value)
      (h : (e : Expr) → P e → R _ (ev e) (ev' e)) where
    abbrev gives : {A : Type 0} → (a : A) → R _ (pure a) (pure a)
    gives a = pure_related s R C a

    integer_related : (e : Expr) → P e → R _ (eval_as_integer s ev e) (eval_as_integer s ev' e)
    unfolding eval_as_integer
    integer_related e p = C.at_bind (h e p) λ v. C.at_try _

    index_related : (e : Expr) → P e → R _ (eval_index s ev e) (eval_index s ev' e)
    unfolding eval_index
    index_related e p = C.at_bind (h e p) λ v. C.at_try _

    compare_related :
        (cmp : ℕ → ℕ → Bool)
        → (l r : Expr) → P l × P r
        → R _ (eval_compare s ev cmp l r) (eval_compare s ev' cmp l r)
    unfolding eval_compare
    compare_related cmp l r (p, q) =
        C.at_bind (integer_related l p) λ a. C.at_bind (integer_related r q) λ b. gives _

    equal_related :
        (ty : Ty)
        → (l r : Expr) → P l × P r
        → R _ (eval_equal s ev ty l r) (eval_equal s ev' ty l r)
    unfolding eval_equal
    equal_related ty l r (p, q) = C.at_bind (h l p) λ a. C.at_bind (h r q) λ b. C.at_try _

    arith_related :
        (ty : Ty)
        → (op : ArithOp) → (l r : Expr) → P l × P r
        → R _ (eval_arith s ev ty op l r) (eval_arith s ev' ty op l r)
    unfolding eval_arith
    arith_related ty op l r (p, q) =
        C.at_bind (C.at_try _) λ u. C.at_bind (h l p) λ a. C.at_bind (h r q) λ b. C.at_try _

    cast_related :
        (checks : Try Unit)
        → (from to : Ty) → (e : Expr) → P e
        → R _ (cast_of s ev checks from to e) (cast_of s ev' checks from to e)
    unfolding cast_of
    cast_related checks from to e p = C.at_bind (C.at_try _) λ u. C.at_bind (h e p) λ v. C.at_try _

    new_related :
        (ty : Ty)
        → (es : Exprs) → AllExprs s P es
        → R _ (eval_new s ev ty es) (eval_new s ev' ty es)
    unfolding eval_new
    new_related ty es p = C.at_bind (C.at_try _) λ u. C.at_bind (C.at_try _) λ u'.
        C.at_bind (all_related s R C P ev ev' h es p) λ vs. C.at_bind (C.at_try _) λ av. gives _

    slice_related :
        (ty : Ty)
        → (e index : Expr) → (len : ℕ) → P e × P index
        → R _ (eval_bytes_slice s ev ty e index len) (eval_bytes_slice s ev' ty e index len)
    unfolding eval_bytes_slice
    slice_related ty e index len (p, q) = C.at_bind (C.at_try _) λ u. C.at_bind (h e p) λ v.
        C.at_bind (index_related index q)
          λ start. C.at_bind (C.at_try _) λ n. C.at_bind (C.at_try _) λ width. C.at_try _

    pub step_related : (e : Expr) → Within s P e → R _ (step s ev e) (step s ev' e)
    unfolding step Within
    step_related (Expr.quote literal) w = C.at_try _
    step_related (Expr.var_ref id) w = C.at_local id
    step_related (Expr.default ty) w = C.at_bind (C.at_try _) λ u. C.at_try _
    step_related (Expr.assert e message) p = C.at_bind (h e p) λ v. C.at_try _
    step_related (Expr.public_ledger field class path op result is args) w =
        C.at_bind (C.at_try _) λ u. C.at_bind (C.at_try _) λ u'. query_related s R C P ev ev' h is w
    step_related (Expr.emit version tag len payload is) w =
        C.at_bind (query_related s R C P ev ev' h is w) λ v. gives _
    step_related (Expr.seq items) w = seq_related s R C P ev ev' h _ items w
    step_related (Expr.return e) p = h e p
    step_related (Expr.tuple args) w = tuple_related s R C P ev ev' h args w
    step_related (Expr.vector_lit args) w = tuple_related s R C P ev ev' h args w
    step_related (Expr.let_star bs body) (ps, p) =
        C.at_bind (bindings_related s R C P ev ev' h bs ps) λ u. h body p
    step_related (Expr.call name args) (ps, p) = call_related s R C P ev ev' h name args ps p
    step_related (Expr.add ty l r) w = arith_related ty ArithOp.add l r w
    step_related (Expr.sub ty l r) w = arith_related ty ArithOp.sub l r w
    step_related (Expr.mul ty l r) w = arith_related ty ArithOp.mul l r w
    step_related (Expr.eq ty l r) w = C.at_bind (equal_related ty l r w) λ b. gives _
    step_related (Expr.neq ty l r) w = C.at_bind (equal_related ty l r w) λ b. gives _
    step_related (Expr.lt n l r) w = compare_related _ l r w
    step_related (Expr.le n l r) w = compare_related _ l r w
    step_related (Expr.gt n l r) w = compare_related _ l r w
    step_related (Expr.ge n l r) w = compare_related _ l r w
    step_related (Expr.cond c t e) (p, q, r) =
        C.at_bind (h c p) λ v. on_test s R C _ (h t q) (h e r)
    step_related (Expr.vector_ref ty e index) (p, q) =
        C.at_bind (h e p) λ v. C.at_bind (index_related index q) λ i. C.at_try _
    step_related (Expr.tuple_ref e index) p =
        C.at_bind (C.at_try _) λ i. C.at_bind (C.at_infer e) λ t. C.at_bind (h e p) λ v. C.at_try _
    step_related (Expr.new ty es) w = new_related ty es w
    step_related (Expr.cast_from_bytes ty len e) p = cast_related _ (Ty.bytes len) ty e p
    step_related (Expr.cast_from_enum ty from e) p = cast_related _ from ty e p
    step_related (Expr.cast_to_enum ty from e) p = cast_related _ from ty e p
    step_related (Expr.safe_cast ty from e) p = cast_related _ from ty e p
    step_related (Expr.cast_to_field f from e) p = cast_related _ from native_field e p
    step_related (Expr.cast_from_field maxval f e) p =
        cast_related _ native_field (Ty.unsigned maxval) e p
    step_related (Expr.downcast_unsigned from to e) p =
        cast_related _ (Ty.unsigned from) (Ty.unsigned to) e p
    step_related (Expr.elt_ref e elt index) p =
        C.at_bind (C.at_infer e) λ t. C.at_bind (h e p) λ v. C.at_try _
    step_related (Expr.field_to_bytes len f e) p =
        C.at_bind (h e p) λ v. C.at_bind (C.at_try _) λ n. C.at_try _
    step_related (Expr.bytes_to_vector len e) p = C.at_bind (h e p) λ v. C.at_try _
    step_related (Expr.vector_to_bytes len e) p =
        C.at_bind (h e p) λ v. C.at_bind (C.at_try _) λ n. C.at_bind (C.at_try _) λ bs. C.at_try _
    step_related (Expr.contract_call circuit receiver ty args) w =
        C.at_bind (C.at_try _) λ u. C.at_try _
    step_related (Expr.enum_ref ty elt) w = C.at_bind (C.at_try _) λ u. C.at_try _
    step_related (Expr.map len fun args) (ps, p) = map_related s R C P ev ev' h len fun args ps p
    step_related (Expr.fold len fun init ty args) (q, ps, p) =
        fold_related s R C P ev ev' h len fun init args q ps p
    step_related (Expr.bytes_ref ty e index) (p, q) = C.at_bind (C.at_try _) λ u.
        C.at_bind (h e p)
          λ v. C.at_bind (index_related index q) λ i. C.at_bind (C.at_try _) λ width. C.at_try _
    step_related (Expr.tuple_slice ty e index len) p = C.at_bind (C.at_try _) λ u.
        C.at_bind (h e p)
          λ v. C.at_bind (C.at_try _) λ start. C.at_bind (C.at_try _) λ n. C.at_try _
    step_related (Expr.vector_slice ty e index len) (p, q) = C.at_bind (C.at_try _) λ u.
        C.at_bind (h e p)
          λ v. C.at_bind (index_related index q) λ start. C.at_bind (C.at_try _) λ n. C.at_try _
    step_related (Expr.bytes_slice ty e index len) w = slice_related ty e index len w

  abbrev Any : Expr → Type 0
  Any e = Unit

  step_related_any :
      (ev ev' : Expr → Run Value)
      → ((e : Expr) → R _ (ev e) (ev' e))
      → (e : Expr) → R _ (step s ev e) (step s ev' e)
  step_related_any ev ev' h e =
      step_related Any ev ev' (λ x u. h x) e (every-Within s Any (λ x. tt) e)

  -- A relation that relates a run without fuel to itself relates every evaluation to itself.
  pub eval_related :
      R Value exhausted exhausted → (fuel : ℕ) → (e : Expr) → R _ (eval s fuel e) (eval s fuel e)
  unfolding eval
  eval_related base zero e = base
  eval_related base (suc fuel) e =
      step_related_any (eval s fuel) (eval s fuel) (eval_related base fuel) e

  -- A relation that relates a run without fuel to every run relates an evaluation to those on more fuel.
  pub more_fuel_related :
      ((m : Run Value) → R _ exhausted m)
      → (fuel fuel' : ℕ) → fuel ≤ fuel'
      → (e : Expr) → R _ (eval s fuel e) (eval s fuel' e)
  unfolding eval
  more_fuel_related base zero fuel' le e = base _
  more_fuel_related base (suc fuel) zero le e = ground arith
  more_fuel_related base (suc fuel) (suc fuel') le e =
      step_related_any (eval s fuel) (eval s fuel')
        (more_fuel_related base fuel fuel' (omega arith)) e

  pub body_related :
      (c : Circuit) → (m m' : Run Value) → R _ m m' → R _ (run_body s c m) (run_body s c m')
  unfolding run_body
  body_related c m m' h =
      C.at_bind (C.at_try _)
        λ u. C.at_bind h λ v. C.at_bind (C.at_try _) λ outputs. pure_related s R C _
