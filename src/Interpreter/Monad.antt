-- ===== src/Interpreter/Monad.antt =====
-- crates/compact/interpreter/src/lib.rs: the context of a run, and what a piece of the run is: it gives a
-- value or an error, and leaves a context either way. `out_of_fuel` is not the program's.
use midnight_rs.Base.{ℕ, Bool, Option, List, [], ◌∷◌, ◌++◌, Result, ok_or}
use midnight_rs.Ir.Model.{Ty}
use midnight_rs.Ir.Expr.{Argument, Expr}
use midnight_rs.Runtime.Value.{Segment, AlignedValue, Value, Values, InterpreterError, Try, Fab}
use midnight_rs.Interpreter.Program.{Program}
use midnight_rs.Interpreter.Infer.{Env, lookup, insert, infer_type_of_expr}

mutual
  -- `StateValue`, as a push builds it
  pub data StateValue : Type 0 where
    null : StateValue
    cell : AlignedValue → StateValue
    map : StateEntries → StateValue
    array : StateValues → StateValue
    merkle_tree : ℕ → StateValue

  pub data StateValues : Type 0 where
    no_states : StateValues
    more_states : StateValue → StateValues → StateValues

  pub data StateEntries : Type 0 where
    no_state_entries : StateEntries
    more_state_entries : AlignedValue → StateValue → StateEntries → StateEntries

pub data Key : Type 0 where
  stack : Key
  value : AlignedValue → Key

-- `Op` of the VM, of the operations that the interpreter builds
pub data Op : Type 0 where
  idx : Bool → Bool → List Key → Op
  push : Bool → StateValue → Op
  addi subi noop branch jmp dup swap : ℕ → Op
  popeq rem : Bool → Op
  ins concat : Bool → ℕ → Op
  member root eq lt ckpt neg add pop size type log : Op

-- `GatherEvent`; a log item is a number that stands for it
pub data Event : Type 0 where
  read : AlignedValue → Event
  log : ℕ → Event

-- The run's program, and what it calls outside: the VM on a contract state, which is a number that
-- stands for it; the builtins; the witness provider, on the private state; and the ledger's hash of a
-- Merkle leaf and size of an alignment. `own_key` is the caller's coin public key.
pub record Setting : Type 0 where
  pub fab : Fab
  pub program : Program
  pub query : ℕ → List Op → Result Unit (List Event × ℕ)
  pub builtin : List ℕ → Values → List Ty → Option (Result InterpreterError Value)
  pub call_witness : List ℕ → List ℕ → Values → List ℕ × Result InterpreterError (Option Value)
  pub leaf_hash : AlignedValue → AlignedValue
  pub max_aligned_size : List Segment → ℕ
  pub has_address : Bool
  pub own_key : Option AlignedValue

-- `ExecContext`, without what is fixed for the run
pub record Context : Type 0 where
  pub state : ℕ
  pub locals : Env Value
  pub local_types : Env Ty
  pub reads : List AlignedValue
  pub gather_ops : List Op
  pub private_outputs : List AlignedValue
  pub zswap_outputs : List (Value × Value)
  pub zswap_inputs : List Value
  pub logs : List ℕ
  pub private_state : List ℕ

pub data Outcome (A : Type 0) : Type 0 where
  ok : A → Outcome A
  err : InterpreterError → Outcome A
  out_of_fuel : Outcome A

abbrev pub Run : Type 0 → Type 0
Run A = Context → Outcome A × Context

abbrev pub pure : {A : Type 0} → A → Run A
pure a c = (Outcome.ok a, c)

abbrev pub on_outcome : {A B : Type 0} → Outcome A × Context → (A → Run B) → Outcome B × Context
on_outcome (Outcome.ok a, c) k = k a c
on_outcome (Outcome.err e, c) k = (Outcome.err e, c)
on_outcome (Outcome.out_of_fuel, c) k = (Outcome.out_of_fuel, c)

infixl 5 ◌>>=◌
unfoldable pub ◌>>=◌ : {A B : Type 0} → Run A → (A → Run B) → Run B
(m >>= k) c = on_outcome (m c) k

abbrev pub outcome_of : {A : Type 0} → Try A → Outcome A
outcome_of (Result.ok a) = Outcome.ok a
outcome_of (Result.err e) = Outcome.err e

-- A part of the run that leaves the context alone.
unfoldable pub try : {A : Type 0} → Try A → Run A
try t c = (outcome_of t, c)

abbrev pub refuse : {A : Type 0} → InterpreterError → Run A
refuse e = try (Result.err e)

unfoldable pub local : List ℕ → Run Value
local id c = (outcome_of (ok_or (lookup id c.locals) (InterpreterError.undefined_variable id)), c)

-- `locals.insert`, `local_types.insert`
unfoldable pub bind_local : List ℕ → Value → Ty → Run Unit
bind_local id v t c = (
  Outcome.ok tt,
  record c { locals = insert id v c.locals; local_types = insert id t c.local_types },
)

abbrev pub bind_values : List Argument → Values → Env Value → Env Value
bind_values [] vs env = env
bind_values (a ∷ as') Values.no_values env = env
bind_values (a ∷ as') (Values.more_values v vs) env = bind_values as' vs (insert a.name v env)

abbrev pub bind_types : List Argument → Env Ty → Env Ty
bind_types [] env = env
bind_types (a ∷ as') env = bind_types as' (insert a.name a.ty env)

-- A body that runs in the caller's locals with the parameters bound in addition; the caller's locals
-- are put back, however the body ends.
unfoldable pub scoped : {A : Type 0} → List Argument → Values → Run A → Run A
scoped params args m c =
    let (outcome, after) = m (record c {
      locals = bind_values params args c.locals;
      local_types = bind_types params c.local_types;
    }) in
    (outcome, record after { locals = c.locals; local_types = c.local_types })

unfoldable pub push_zswap_output : Value → Value → Run Unit
push_zswap_output coin recipient c =
    (Outcome.ok tt, record c { zswap_outputs = c.zswap_outputs ++ (coin, recipient) ∷ [] })

unfoldable pub push_zswap_input : Value → Run Unit
push_zswap_input coin c = (Outcome.ok tt, record c { zswap_inputs = c.zswap_inputs ++ coin ∷ [] })

unfoldable pub push_private_output : AlignedValue → Run Unit
push_private_output av c =
    (Outcome.ok tt, record c { private_outputs = c.private_outputs ++ av ∷ [] })

abbrev pub reads_of : List Event → List AlignedValue
reads_of [] = []
reads_of (Event.read av ∷ events) = av ∷ reads_of events
reads_of (Event.log item ∷ events) = reads_of events

abbrev pub logs_of : List Event → List ℕ
logs_of [] = []
logs_of (Event.read av ∷ events) = logs_of events
logs_of (Event.log item ∷ events) = item ∷ logs_of events

abbrev pub last_read : Value → List AlignedValue → Value
last_read v [] = v
last_read v (av ∷ avs) = last_read (Value.aligned av) avs

abbrev pub after_query : Context → Result Unit (List Event × ℕ) → Outcome Value × Context
after_query c (Result.err e) = (Outcome.err InterpreterError.ledger_query_failed, c)
after_query c (Result.ok (events, after)) = (
  Outcome.ok (last_read Value.void (reads_of events)),
  record c { state = after; reads = c.reads ++ reads_of events; logs = c.logs ++ logs_of events },
)

module _ (s : Setting) where
  unfoldable pub infer : Expr → Run (Option Ty)
  unfolding infer_type_of_expr
  infer e c = (Outcome.ok (infer_type_of_expr s.program c.local_types e), c)

  -- The provider may change the private state, also where it fails.
  unfoldable pub ask_witness : List ℕ → Values → Run (Option Value)
  ask_witness name args c =
      let (after, answer) = s.call_witness c.private_state name args in
      (outcome_of answer, record c { private_state = after })

  -- The operations are recorded, then run by the VM on the state; the value is the last one read.
  unfoldable pub run_ops : List Op → Run Value
  run_ops ops c = after_query (record c { gather_ops = c.gather_ops ++ ops }) (s.query c.state ops)
