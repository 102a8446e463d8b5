-- ===== src/Interpreter/Closed/Calls.antt =====
-- crates/compact/interpreter/src/lib.rs: lemmas on calls, loops and lists of expressions, for a relation
-- between runs.
use midnight_rs.Base.{
  ℕ, zero, suc, ◌+◌, Bool, true, false, Option, none, some, List, if◌then◌else◌, Result,
}
use midnight_rs.Ir.Expr.{Argument, Circuit, Expr, Exprs, TupleArgs, MapArgs, Fun, Bindings}
use midnight_rs.Runtime.Value.{Value, Values}
use midnight_rs.Interpreter.Program.{Callee, callee}
use midnight_rs.Interpreter.Monad.{Setting, Run, pure, try}
use midnight_rs.Interpreter.Calls.{
  WitnessNative, eval_native, record_answer, ask_provider, native_or_provider, eval_witness_call,
  eval_pure_call, call_circuit, call_ref, apply_callee, eval_all, eval_call, apply_fun, eval_seq,
  eval_parts, eval_tuple, eval_bindings, eval_args, map_from, fold_from, eval_map, eval_fold,
  request_output, request_input,
}
use midnight_rs.Interpreter.Closed.{Relation, IsClosed}
use midnight_rs.Interpreter.Closed.Parts.{
  AllExprs, AllParts, AllArgs, AllBindings, OfCallee, OfRef, OfFun,
}

module _ (s : Setting) (R : Relation) (C : IsClosed s R) where
  pub pure_related : {A : Type 0} → (a : A) → R _ (pure a) (pure a)
  unfolding try
  pure_related a = C.at_try (Result.ok a)

  pub on_test :
      {A : Type 0}
      → (b : Bool) → {m n m' n' : Run A} → R _ m m'
      → R _ n n'
      → R _ (if b then m else n) (if b then m' else n')
  on_test true p q = p
  on_test false p q = q

  output_related : (vs : Values) → R _ (request_output s vs) (request_output s vs)
  output_related Values.no_values = C.at_try _
  output_related (Values.more_values coin Values.no_values) = C.at_try _
  output_related (Values.more_values coin (Values.more_values recipient vs)) =
      C.at_bind (C.at_zswap_output _ _) λ u. pure_related _

  input_related : (vs : Values) → R _ (request_input s vs) (request_input s vs)
  input_related Values.no_values = C.at_try _
  input_related (Values.more_values coin vs) = C.at_bind (C.at_zswap_input _) λ u. pure_related _

  native_related :
      (native : WitnessNative)
      → (vs : Values) → R _ (eval_native s native vs) (eval_native s native vs)
  unfolding eval_native
  native_related WitnessNative.create_zswap_output vs = output_related vs
  native_related WitnessNative.create_zswap_input vs = input_related vs
  native_related WitnessNative.own_public_key vs =
      C.at_bind (C.at_try _) λ key. C.at_bind (C.at_private_output _) λ u. pure_related _

  answer_related : (answer : Option Value) → R _ (record_answer s answer) (record_answer s answer)
  unfolding record_answer
  answer_related none = C.at_try _
  answer_related (some v) =
      C.at_bind (C.at_try _) λ av. C.at_bind (C.at_private_output _) λ u. pure_related _

  provider_related :
      (name : List ℕ) → (vs : Values) → R _ (ask_provider s name vs) (ask_provider s name vs)
  unfolding ask_provider
  provider_related name vs = C.at_bind (C.at_ask_witness _ _) answer_related

  native_or_provider_related :
      (native : Option WitnessNative)
      → (name : List ℕ) → (vs : Values)
      → R _ (native_or_provider s native name vs) (native_or_provider s native name vs)
  native_or_provider_related (some native) name vs = native_related native vs
  native_or_provider_related none name vs = provider_related name vs

  witness_related :
      (id : List ℕ) → (vs : Values) → R _ (eval_witness_call s id vs) (eval_witness_call s id vs)
  unfolding eval_witness_call
  witness_related id vs = native_or_provider_related _ _ vs

  module _ (P : Expr → Type 0) (ev ev' : Expr → Run Value)
      (h : (e : Expr) → P e → R _ (ev e) (ev' e)) where
    call_circuit_related :
        (ps : List Argument)
        → (body : Expr) → P body
        → (vs : Values) → R _ (call_circuit s ev ps body vs) (call_circuit s ev' ps body vs)
    unfolding call_circuit
    call_circuit_related ps body p vs =
        on_test _ (C.at_bind (C.at_try _) λ u. C.at_scoped ps vs (h body p)) (C.at_try _)

    callee_related :
        (c : Callee)
        → OfCallee s P c
        → (name : List ℕ) → (vs : Values)
        → R _ (apply_callee s ev c name vs) (apply_callee s ev' c name vs)
    unfolding eval_pure_call
    callee_related (Callee.circuit c) p name vs = call_circuit_related _ _ p vs
    callee_related Callee.witness p name vs = witness_related name vs
    callee_related Callee.pure p name vs = C.at_try _

    pub all_related : (es : Exprs) → AllExprs s P es → R _ (eval_all s ev es) (eval_all s ev' es)
    unfolding eval_all
    all_related Exprs.no_exprs p = pure_related _
    all_related (Exprs.more_exprs e es) (p, ps) =
        C.at_bind (h e p) λ v. C.at_bind (all_related es ps) λ vs. pure_related _

    pub call_related :
        (name : List ℕ)
        → (es : Exprs) → AllExprs s P es
        → OfCallee s P (callee s.program name)
        → R _ (eval_call s ev name es) (eval_call s ev' name es)
    unfolding eval_call
    call_related name es ps p =
        C.at_bind (C.at_try _) λ u. C.at_bind (all_related es ps) λ vs. callee_related _ p name vs

    call_ref_related :
        (c : Option Circuit)
        → OfRef s P c
        → (vs : Values) → R _ (call_ref s ev c vs) (call_ref s ev' c vs)
    call_ref_related (some c) p vs = call_circuit_related _ _ p vs
    call_ref_related none p vs = C.at_try _

    fun_related :
        (fun : Fun)
        → OfFun s P fun
        → (vs : Values) → R _ (apply_fun s ev fun vs) (apply_fun s ev' fun vs)
    unfolding apply_fun
    fun_related (Fun.ref id) p vs = call_ref_related _ p vs
    fun_related (Fun.circuit ps result body) p vs = call_circuit_related ps body p vs

    pub seq_related :
        (v : Value)
        → (es : Exprs) → AllExprs s P es
        → R _ (eval_seq s ev v es) (eval_seq s ev' v es)
    unfolding eval_seq
    seq_related v Exprs.no_exprs p = pure_related v
    seq_related v (Exprs.more_exprs e es) (p, ps) = C.at_bind (h e p) λ w. seq_related w es ps

    parts_related :
        (args : TupleArgs) → AllParts s P args → R _ (eval_parts s ev args) (eval_parts s ev' args)
    unfolding eval_parts
    parts_related TupleArgs.no_parts p = pure_related _
    parts_related (TupleArgs.single e args) (p, ps) =
        C.at_bind (h e p) λ v. C.at_bind (parts_related args ps) λ vs. pure_related _
    parts_related (TupleArgs.spread len e args) (p, ps) = C.at_bind (C.at_try _) λ expected.
        C.at_bind (C.at_infer e) λ t. C.at_bind (h e p) λ v.
          C.at_bind (C.at_try _) λ elements. C.at_bind (parts_related args ps) λ vs. pure_related _

    pub tuple_related :
        (args : TupleArgs) → AllParts s P args → R _ (eval_tuple s ev args) (eval_tuple s ev' args)
    unfolding eval_tuple
    tuple_related args ps = C.at_bind (parts_related args ps) λ vs. pure_related _

    pub bindings_related :
        (bs : Bindings) → AllBindings s P bs → R _ (eval_bindings s ev bs) (eval_bindings s ev' bs)
    unfolding eval_bindings
    bindings_related Bindings.no_bindings p = pure_related _
    bindings_related (Bindings.bind binder e bs) (p, ps) =
        C.at_bind (C.at_infer e)
          λ t. C.at_bind (h e p) λ v. C.at_bind (C.at_bind_local _ v _) λ u. bindings_related bs ps

    args_related :
        (args : MapArgs) → AllArgs s P args → R _ (eval_args s ev args) (eval_args s ev' args)
    unfolding eval_args
    args_related MapArgs.no_args p = pure_related _
    args_related (MapArgs.more_args e ty element args) (p, ps) =
        C.at_bind (h e p) λ v. C.at_bind (args_related args ps) λ vs. pure_related _

    map_from_related :
        (fun : Fun)
        → OfFun s P fun
        → (vs : Values) → (args : MapArgs) → (i n : ℕ)
        → R _ (map_from s ev fun vs args i n) (map_from s ev' fun vs args i n)
    unfolding map_from
    map_from_related fun p vs args i zero = pure_related _
    map_from_related fun p vs args i (suc n) = C.at_bind (C.at_try _) λ xs.
        C.at_bind (fun_related fun p xs)
          λ out. C.at_bind (map_from_related fun p vs args (i + 1) n) λ outs. pure_related _

    fold_from_related :
        (fun : Fun)
        → OfFun s P fun
        → (vs : Values) → (args : MapArgs) → (i n : ℕ) → (acc : Value)
        → R _ (fold_from s ev fun vs args i n acc) (fold_from s ev' fun vs args i n acc)
    unfolding fold_from
    fold_from_related fun p vs args i zero acc = pure_related acc
    fold_from_related fun p vs args i (suc n) acc = C.at_bind (C.at_try _) λ xs.
        C.at_bind (fun_related fun p (Values.more_values acc xs))
          λ next. fold_from_related fun p vs args (i + 1) n next

    pub map_related :
        (len : ℕ)
        → (fun : Fun) → (args : MapArgs) → AllArgs s P args
        → OfFun s P fun
        → R _ (eval_map s ev len fun args) (eval_map s ev' len fun args)
    unfolding eval_map
    map_related len fun args ps p = C.at_bind (args_related args ps) λ vs.
        C.at_bind (C.at_try _)
          λ n. C.at_bind (map_from_related fun p vs args 0 n) λ out. pure_related _

    pub fold_related :
        (len : ℕ)
        → (fun : Fun) → (init : Expr) → (args : MapArgs) → P init
        → AllArgs s P args
        → OfFun s P fun
        → R _ (eval_fold s ev len fun init args) (eval_fold s ev' len fun init args)
    unfolding eval_fold
    fold_related len fun init args q ps p = C.at_bind (h init q) λ acc.
        C.at_bind (args_related args ps)
          λ vs. C.at_bind (C.at_try _) λ n. fold_from_related fun p vs args 0 n acc
