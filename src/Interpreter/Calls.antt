-- ===== src/Interpreter/Calls.antt =====
-- crates/compact/interpreter/src/lib.rs: lists of expressions, calls and loops. `ev` evaluates an
-- expression.
use midnight_rs.Base.{
  ℕ, zero, suc, ◌+◌, Option, none, some, List, [], ◌∷◌, ◌==◌, if◌then◌else◌, length, Result, ok_or,
}
use midnight_rs.Ir.Text.{bytes_of, eq_text}
use midnight_rs.Ir.Model.{Ty}
use midnight_rs.Ir.Expr.{Argument, Circuit, Expr, Exprs, TupleArgs, MapArgs, Fun, Bindings}
use midnight_rs.Runtime.Value.{
  Value, Values, InterpreterError, Try, ir_length, try_to_aligned_value,
}
use midnight_rs.Runtime.Encode.{values_length, check_type}
use midnight_rs.Interpreter.Program.{
  Callee, callee, circuit_of, runtime_name, argument_types, result_type_of,
}
use midnight_rs.Interpreter.Elements.{append_values, indexed_element, splice_spread}
use midnight_rs.Interpreter.Monad.{
  Setting, Run, pure, ◌>>=◌, try, refuse, bind_local, scoped, push_zswap_output, push_zswap_input,
  push_private_output, infer, ask_witness,
}
use midnight_rs.Base.Results.{◌>>=◌ as then_try}

abbrev pub check_params : List Argument → Try Unit
check_params [] = Result.ok tt
check_params (p ∷ ps) = then_try (check_type p.ty) λ u. check_params ps

-- `unwrap_or_else`
abbrev type_or : Option Ty → Ty → Ty
type_or (some t) declared = t
type_or none declared = declared

abbrev check_result : Option Ty → Try Unit
check_result none = Result.ok tt
check_result (some t) = check_type t

-- `WitnessNative::from_name` of crates/compact/runtime/src/zswap.rs
pub data WitnessNative : Type 0 where
  own_public_key create_zswap_input create_zswap_output : WitnessNative

abbrev pub from_name : List ℕ → Option WitnessNative
from_name name =
    if eq_text name (bytes_of "ownPublicKey")
    then some WitnessNative.own_public_key
    else if eq_text name (bytes_of "createZswapInput")
    then some WitnessNative.create_zswap_input
    else if eq_text name (bytes_of "createZswapOutput")
    then some WitnessNative.create_zswap_output
    else none

module _ (s : Setting) where
  abbrev pub request_output : Values → Run Value
  request_output (Values.more_values coin (Values.more_values recipient vs)) =
      push_zswap_output coin recipient >>= λ u. pure Value.void
  request_output _ = refuse InterpreterError.type_error

  abbrev pub request_input : Values → Run Value
  request_input (Values.more_values coin vs) = push_zswap_input coin >>= λ u. pure Value.void
  request_input Values.no_values = refuse InterpreterError.type_error

  unfoldable pub caller_key : Run Value
  caller_key = try (ok_or s.own_key InterpreterError.witness) >>= λ key.
      push_private_output key >>= λ u. pure (Value.aligned key)

  unfoldable pub eval_native : WitnessNative → Values → Run Value
  unfolding caller_key
  eval_native WitnessNative.create_zswap_output vs = request_output vs
  eval_native WitnessNative.create_zswap_input vs = request_input vs
  eval_native WitnessNative.own_public_key vs = caller_key

  -- The answer of the provider: its encoding is an output of the private transcript.
  unfoldable pub record_answer : Option Value → Run Value
  unfolding try_to_aligned_value
  record_answer (some v) =
      try (try_to_aligned_value s.fab v) >>= λ av. push_private_output av >>= λ u. pure v
  record_answer none = refuse InterpreterError.witness

  unfoldable pub ask_provider : List ℕ → Values → Run Value
  unfolding record_answer
  ask_provider name vs = ask_witness s name vs >>= λ answer. record_answer answer

  abbrev pub native_or_provider : Option WitnessNative → List ℕ → Values → Run Value
  native_or_provider (some native) name vs = eval_native native vs
  native_or_provider none name vs = ask_provider name vs

  unfoldable pub eval_witness_call : List ℕ → Values → Run Value
  unfolding eval_native ask_provider
  eval_witness_call id vs =
      let name = runtime_name s.program id in native_or_provider (from_name name) name vs

  abbrev builtin_result : Option (Try Value) → Try Value
  builtin_result (some result) = result
  builtin_result none = Result.err InterpreterError.unsupported

  unfoldable pub eval_pure_call : List ℕ → Values → Run Value
  eval_pure_call id vs =
      try (builtin_result (s.builtin (runtime_name s.program id) vs (argument_types s.program id)))

  module _ (ev : Expr → Run Value) where
    unfoldable pub call_circuit : List Argument → Expr → Values → Run Value
    call_circuit params body args =
        if length params == values_length args
        then (try (check_params params) >>= λ u. scoped params args (ev body))
        else refuse InterpreterError.type_error

    abbrev pub apply_callee : Callee → List ℕ → Values → Run Value
    apply_callee (Callee.circuit c) name vs = call_circuit c.arguments c.body vs
    apply_callee Callee.witness name vs = eval_witness_call name vs
    apply_callee Callee.pure name vs = eval_pure_call name vs

    -- `map` over the arguments, left to right
    unfoldable pub eval_all : Exprs → Run Values
    eval_all Exprs.no_exprs = pure Values.no_values
    eval_all (Exprs.more_exprs e es) =
        ev e >>= λ v. eval_all es >>= λ vs. pure (Values.more_values v vs)

    unfoldable pub eval_call : List ℕ → Exprs → Run Value
    unfolding callee call_circuit eval_witness_call eval_pure_call eval_all
    eval_call name args = try (check_result (result_type_of s.program name)) >>= λ u.
        eval_all args >>= λ vs. apply_callee (callee s.program name) name vs

    abbrev pub call_ref : Option Circuit → Values → Run Value
    call_ref (some c) args = call_circuit c.arguments c.body args
    call_ref none args = refuse InterpreterError.type_error

    unfoldable pub apply_fun : Fun → Values → Run Value
    unfolding call_circuit
    apply_fun (Fun.ref id) args = call_ref (circuit_of s.program id) args
    apply_fun (Fun.circuit params result body) args = call_circuit params body args

    -- The value of a sequence so far, and the rest of its items
    unfoldable pub eval_seq : Value → Exprs → Run Value
    eval_seq v Exprs.no_exprs = pure v
    eval_seq v (Exprs.more_exprs e es) = ev e >>= λ w. eval_seq w es

    unfoldable pub eval_parts : TupleArgs → Run Values
    unfolding splice_spread
    eval_parts TupleArgs.no_parts = pure Values.no_values
    eval_parts (TupleArgs.single e args) =
        ev e >>= λ v. eval_parts args >>= λ vs. pure (Values.more_values v vs)
    eval_parts (TupleArgs.spread len e args) = try (ir_length len) >>= λ expected.
        infer s e >>= λ t. ev e >>= λ v. try (splice_spread s.fab v t expected) >>= λ elements.
        eval_parts args >>= λ vs. pure (append_values elements vs)

    abbrev tuple_of : Values → Value
    tuple_of Values.no_values = Value.void
    tuple_of (Values.more_values v vs) = Value.tuple (Values.more_values v vs)

    unfoldable pub eval_tuple : TupleArgs → Run Value
    unfolding eval_parts
    eval_tuple args = eval_parts args >>= λ vs. pure (tuple_of vs)

    -- The bindings in order, each in the scope of those before it
    unfoldable pub eval_bindings : Bindings → Run Unit
    eval_bindings Bindings.no_bindings = pure tt
    eval_bindings (Bindings.bind binder e bs) = infer s e >>= λ t.
        ev e >>= λ v. bind_local binder.name v (type_or t binder.ty) >>= λ u. eval_bindings bs

    unfoldable pub eval_args : MapArgs → Run Values
    eval_args MapArgs.no_args = pure Values.no_values
    eval_args (MapArgs.more_args e ty element args) =
        ev e >>= λ v. eval_args args >>= λ vs. pure (Values.more_values v vs)

    -- `arg_values.iter().zip(args)`: the elements that the iteration takes
    unfoldable pub loop_args : Values → MapArgs → ℕ → Try Values
    unfolding indexed_element
    loop_args (Values.more_values v vs) (MapArgs.more_args e ty element args) i =
        then_try (indexed_element s.fab v (some ty) i)
          λ x. then_try (loop_args vs args i) λ xs. Result.ok (Values.more_values x xs)
    loop_args _ _ i = Result.ok Values.no_values

    -- The iterations from one on, so many.
    unfoldable pub map_from : Fun → Values → MapArgs → ℕ → ℕ → Run Values
    unfolding loop_args apply_fun
    map_from fun vs args i zero = pure Values.no_values
    map_from fun vs args i (suc n) = try (loop_args vs args i) >>= λ xs. apply_fun fun xs >>= λ out.
        map_from fun vs args (i + 1) n >>= λ outs. pure (Values.more_values out outs)

    unfoldable pub fold_from : Fun → Values → MapArgs → ℕ → ℕ → Value → Run Value
    unfolding loop_args apply_fun
    fold_from fun vs args i zero acc = pure acc
    fold_from fun vs args i (suc n) acc = try (loop_args vs args i) >>= λ xs.
        apply_fun fun (Values.more_values acc xs) >>= λ next. fold_from fun vs args (i + 1) n next

    unfoldable pub eval_map : ℕ → Fun → MapArgs → Run Value
    unfolding eval_args map_from
    eval_map len fun args = eval_args args >>= λ vs.
        try (ir_length len) >>= λ n. map_from fun vs args 0 n >>= λ out. pure (Value.tuple out)

    unfoldable pub eval_fold : ℕ → Fun → Expr → MapArgs → Run Value
    unfolding eval_args fold_from
    eval_fold len fun init args = ev init >>= λ acc.
        eval_args args >>= λ vs. try (ir_length len) >>= λ n. fold_from fun vs args 0 n acc
