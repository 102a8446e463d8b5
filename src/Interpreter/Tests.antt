-- ===== src/Interpreter/Tests.antt =====
-- A machine with a small VM, and a circuit that reads the ledger, calls another and requests a coin.
pub mod Machine
use midnight_rs.Base.{
  ℕ, zero, suc, ◌+◌, ◌*◌, ◌^◌, ◌≤◌, ◌<◌, ◌≡◌, ◌⊎◌, ◌↔◌, arith, refl, Bool, true, false, Option,
  none, some, List, [], ◌∷◌, ◌++◌, map, pos, ltb, ◌==◌, if◌then◌else◌, length, Result, ok, err,
}
use midnight_rs.Ir.Text.{bytes_of}
use midnight_rs.Ir.Model.{Curve, FieldType, Ty, Tys, Fields, uint_byte_width}
use midnight_rs.Ir.OpName.{OpName}
use midnight_rs.Ir.Expr.{
  Literal, Argument, OpClass, Expr, Exprs, TupleArgs, MapArgs, Fun, PathElements, Bindings, OpArgs,
  Instructions, Circuit, Native, Operand,
}
use midnight_rs.Runtime.Value.{Segment, AlignedValue, Value, Values, InterpreterError, ArithOp, Fab}
use midnight_rs.Runtime.Encode.{le_bytes, check_type}
use midnight_rs.Interpreter.Tests.Machine.{number_of_width, demo_fab}
use midnight_rs.Interpreter.Program.{Program}
use midnight_rs.Interpreter.Numbers.{arith_values, cast_to_uint, uint_value, padded_bytes}
use midnight_rs.Interpreter.Monad.{
  Outcome, Op, Event, Setting, Context, ◌>>=◌, try, infer, run_ops, bind_local, local,
  push_zswap_input, scoped,
}
use midnight_rs.Interpreter.Replay.{is_done, Tape, tape, Replayed}
use midnight_rs.Interpreter.Calls.{call_circuit}
use midnight_rs.Interpreter.Eval.{eval}
use midnight_rs.Interpreter.Transcript.{Grown, eval-Grown}
use midnight_rs.Interpreter.Scope.{Kept, SameScope, eval-Kept_call}
use midnight_rs.Interpreter.Execution.{execute-Fits, execute-Replayed}
use midnight_rs.Interpreter.Numbers.Bounds.{arith_values_total}
use midnight_rs.Interpreter.Numbers.Casts.{StandsFor, cast_to_uint-StandsFor}
use midnight_rs.Interpreter.Fuel.{Fits, is_exhausted}
use midnight_rs.Interpreter.Run.{initial, execute, communication_outputs}

abbrev u32 : Ty
u32 = Ty.unsigned 0xFFFFFFFF

abbrev x_argument : Argument
x_argument = record { name = bytes_of "%x.1"; ty = u32 }

-- `double(x) = x + x`
abbrev double_circuit : Circuit
double_circuit = record {
  name = bytes_of "%double.0";
  exported = false;
  pure = true;
  proof = false;
  arguments = x_argument ∷ [];
  result_type = u32;
  body = Expr.add u32 (Expr.var_ref (bytes_of "%x.1")) (Expr.var_ref (bytes_of "%x.1"));
}

abbrev read_counter : Expr
read_counter =
    Expr.public_ledger (bytes_of "counter") (OpClass.plain []) PathElements.no_path
      (bytes_of "read") u32
      (Instructions.more_instructions OpName.dup OpArgs.no_op_args (
        Instructions.more_instructions OpName.popeq OpArgs.no_op_args Instructions.no_instructions))
      Exprs.no_exprs

-- `const x = counter.read(); createZswapInput(x); assert(1 < x); return double(x);`
abbrev pub main_circuit : Circuit
main_circuit = record {
  name = bytes_of "%main.2";
  exported = true;
  pure = false;
  proof = true;
  arguments = [];
  result_type = u32;
  body = Expr.let_star (Bindings.bind x_argument read_counter Bindings.no_bindings) (
      Expr.seq (
        Exprs.more_exprs
          (Expr.call (bytes_of "%createZswapInput.3")
            (Exprs.more_exprs (Expr.var_ref (bytes_of "%x.1")) Exprs.no_exprs))
          (Exprs.more_exprs
            (Expr.assert
              (Expr.lt 32 (Expr.quote (Literal.int (pos 1))) (Expr.var_ref (bytes_of "%x.1")))
              (bytes_of "small"))
            (Exprs.more_exprs
              (Expr.call (bytes_of "%double.0")
                (Exprs.more_exprs (Expr.var_ref (bytes_of "%x.1")) Exprs.no_exprs))
              Exprs.no_exprs))));
}

abbrev spend_native : Native
spend_native = record {
  name = bytes_of "%createZswapInput.3";
  entry = bytes_of "__compactRuntime.createZswapInput";
  class = bytes_of "witness";
  type_arguments = [];
  arguments = x_argument ∷ [];
  result_type = Ty.tuple Tys.no_types;
}

-- A query reads the state, and adds to it the number of the operations.
abbrev pub demo : Setting
demo = record {
  fab = demo_fab;
  program = record {
    circuits = main_circuit ∷ double_circuit ∷ [];
    witnesses = [];
    natives = spend_native ∷ [];
  };
  query = λ state ops. ok (Event.read (number_of_width 4 state) ∷ [], state + length ops);
  builtin = λ name vs types. none;
  call_witness = λ private_state name vs. (private_state, err InterpreterError.witness);
  leaf_hash = λ av. av;
  max_aligned_size = λ segments. 0;
  has_address = true;
  own_key = none;
}

abbrev returned : Outcome (Value × List AlignedValue) → Option Value
returned (Outcome.ok (v, outputs)) = some v
returned _ = none

runs : returned ((execute demo 6 main_circuit 7 [] []).0) ≡ some (Value.integer 14)
unfolding execute ◌>>=◌ try check_type infer run_ops bind_local local push_zswap_input scoped
    communication_outputs
runs = refl

spends :
    ((execute demo 6 main_circuit 7 [] []).1).zswap_inputs
    ≡ Value.aligned (number_of_width 4 7) ∷ []
unfolding execute ◌>>=◌ try check_type infer run_ops bind_local local push_zswap_input scoped
    communication_outputs
spends = refl

fails :
    (execute demo 6 main_circuit 1 [] []).0
    ≡ Outcome.err (InterpreterError.assertion_failed (bytes_of "small"))
unfolding execute ◌>>=◌ try check_type infer run_ops bind_local local push_zswap_input scoped
    communication_outputs
fails = refl

fits : Fits demo 6 main_circuit.body
unfolding Fits
fits = (((tt, (tt, tt)), tt), (((tt, tt), tt), ((tt, tt), (((tt, tt), (tt, tt)), tt))))

execute-Fits_example :
    (is_exhausted ((execute demo 6 main_circuit 7 [] []).0) ≡ false)
    × (execute demo 9 main_circuit 7 [] [] ≡ execute demo 6 main_circuit 7 [] [])
execute-Fits_example = execute-Fits demo 6 9 (omega arith) main_circuit fits 7 [] []

abbrev start_context : Context
start_context = initial main_circuit 7 [] []

abbrev seven : Values
seven = Values.more_values (Value.integer 7) Values.no_values

abbrev start : Tape
start = record { state = 7; ops = []; reads = []; logs = [] }

execute-Replayed_example : Replayed demo start (tape ((execute demo 6 main_circuit 7 [] []).1))
unfolding execute ◌>>=◌ try check_type infer run_ops bind_local local push_zswap_input scoped
    communication_outputs
execute-Replayed_example = execute-Replayed demo 6 main_circuit 7 [] [] refl

eval-Grown_example :
    Grown
      (initial main_circuit 7 [] [])
      ((eval demo 6 main_circuit.body (initial main_circuit 7 [] [])).1)
eval-Grown_example = eval-Grown demo 6 main_circuit.body (initial main_circuit 7 [] [])

eval-Kept_call_example :
    Kept start_context ((eval demo 6 main_circuit.body start_context).1)
    × SameScope start_context (
        (call_circuit demo
          (eval demo 6)
          double_circuit.arguments
          double_circuit.body
          seven
          start_context).1)
eval-Kept_call_example =
    eval-Kept_call demo 6 start_context main_circuit.body double_circuit.arguments
      double_circuit.body seven

arith_values_total_example :
    ((n : ℕ) × ((arith_values demo_fab u32 ArithOp.sub (Value.integer 3) (Value.integer 5)
          ≡ ok (Value.integer n))
        × (n + 5 ≡ 3)
        × (n < 2 ^ 128)))
    ⊎ ((arith_values demo_fab u32 ArithOp.sub (Value.integer 3) (Value.integer 5)
          ≡ err InterpreterError.type_error)
        × (3 < 5))
arith_values_total_example = arith_values_total demo_fab 0xFFFFFFFF ArithOp.sub 3 5 (omega arith)

cast_to_uint-StandsFor_example :
    (cast_to_uint demo_fab (Value.aligned (number_of_width 2 513)) (Ty.bytes 2) 600
      ≡ ok (Value.integer 513))
    ↔ ((n : ℕ) × ((Value.integer 513 ≡ Value.integer n)
          × StandsFor demo_fab (Ty.bytes 2) (Value.aligned (number_of_width 2 513)) n
          × (n ≤ 600)
          × (n < 2 ^ 128)))
cast_to_uint-StandsFor_example =
    cast_to_uint-StandsFor demo_fab (Value.aligned (number_of_width 2 513)) (Value.integer 513)
      (Ty.bytes 2) 600

-- The bytes 1 and 2 are 1 + 2 * 256.
reads_bytes :
    cast_to_uint demo_fab (Value.aligned (number_of_width 2 513)) (Ty.bytes 2) 600
    ≡ ok (Value.integer 513)
unfolding cast_to_uint uint_value padded_bytes
reads_bytes = refl
