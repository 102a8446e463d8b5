-- ===== src/Interpreter/Run.antt =====
-- crates/compact/interpreter/src/lib.rs: the run of a circuit on a contract state, and the encoding of
-- its arguments.
use midnight_rs.Base.{ℕ, Option, none, some, List, [], ◌∷◌, if◌then◌else◌, Result}
use midnight_rs.Ir.Text.{eq_text}
use midnight_rs.Ir.Model.{Ty}
use midnight_rs.Ir.OpName.{ident_name}
use midnight_rs.Ir.Expr.{Argument, Circuit}
use midnight_rs.Runtime.Value.{AlignedValue, Value, Try, Fab, try_to_aligned_value}
use midnight_rs.Runtime.Encode.{encode_typed, check_type}
use midnight_rs.Interpreter.Infer.{Env, insert}
use midnight_rs.Interpreter.Monad.{Outcome, Setting, Context, Run, pure, ◌>>=◌, try}
use midnight_rs.Interpreter.Eval.{eval}
use midnight_rs.Base.Results.{◌>>=◌ as then_try}

-- The arguments of a call, by their source names
abbrev pub Arguments : Type 0
Arguments = List (List ℕ × Value)

abbrev pub argument_value : List ℕ → Arguments → Option Value
argument_value name [] = none
argument_value name ((n, v) ∷ args) = if eq_text n name then some v else argument_value name args

abbrev pub check_arguments : List Argument → Try Unit
check_arguments [] = Result.ok tt
check_arguments (p ∷ ps) = then_try (check_type p.ty) λ u. check_arguments ps

abbrev bind_argument : Argument → Option Value → Env Value → Env Value
bind_argument p (some v) env = insert p.name v env
bind_argument p none env = env

abbrev pub initial_locals : List Argument → Arguments → Env Value → Env Value
initial_locals [] args env = env
initial_locals (p ∷ ps) args env =
    initial_locals ps args (bind_argument p (argument_value (ident_name p.name) args) env)

abbrev pub initial_types : List Argument → Env Ty → Env Ty
initial_types [] env = env
initial_types (p ∷ ps) env = initial_types ps (insert p.name p.ty env)

-- The `ExecContext` that a run starts in
abbrev pub initial : Circuit → ℕ → Arguments → List ℕ → Context
initial c state args private_state = record {
  state = state;
  locals = initial_locals c.arguments args [];
  local_types = initial_types c.arguments [];
  reads = [];
  gather_ops = [];
  private_outputs = [];
  zswap_outputs = [];
  zswap_inputs = [];
  logs = [];
  private_state = private_state;
}

unfoldable pub communication_outputs : Fab → Ty → Value → Try (List AlignedValue)
unfolding encode_typed
communication_outputs fab ty Value.void = Result.ok []
communication_outputs fab ty v = then_try (encode_typed fab ty v) λ av. Result.ok (av ∷ [])

-- The checks of the signature, the body, and the encoding of its value
unfoldable pub run_body : Setting → Circuit → Run Value → Run (Value × List AlignedValue)
run_body s c body =
    try (then_try (check_arguments c.arguments) λ u. check_type c.result_type) >>= λ u.
    body >>= λ v. try (communication_outputs s.fab c.result_type v) >>= λ outputs. pure (v, outputs)

-- The result of the body and its communication outputs; the rest of `ExecutionResult` is the context
-- that the run leaves.
unfoldable pub execute :
    Setting → ℕ → Circuit → ℕ → Arguments → List ℕ → Outcome (Value × List AlignedValue) × Context
unfolding eval run_body
execute s fuel c state args private_state =
    run_body s c (eval s fuel c.body) (initial c state args private_state)

abbrev pub declared : List Argument → List ℕ → Option Ty
declared [] name = none
declared (p ∷ ps) name = if eq_text (ident_name p.name) name then some p.ty else declared ps name

unfoldable pub encode_argument : Fab → Option Ty → Value → Try AlignedValue
unfolding encode_typed try_to_aligned_value
encode_argument fab (some t) v = encode_typed fab t v
encode_argument fab none v = try_to_aligned_value fab v

abbrev pub encode_arguments : Fab → List Argument → Arguments → Try (List AlignedValue)
encode_arguments fab ps [] = Result.ok []
encode_arguments fab ps ((name, v) ∷ args) =
    then_try (encode_argument fab (declared ps name) v)
      λ av. then_try (encode_arguments fab ps args) λ parts. Result.ok (av ∷ parts)

unfoldable pub encode_circuit_input : Fab → Arguments → List Argument → Try AlignedValue
encode_circuit_input fab [] ps = Result.ok fab.of_unit
encode_circuit_input fab (arg ∷ args) ps =
    then_try (encode_arguments fab ps (arg ∷ args)) λ parts. Result.ok (fab.concat parts)
