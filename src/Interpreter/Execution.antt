-- ===== src/Interpreter/Execution.antt =====
-- crates/compact/interpreter/src/lib.rs: the run of a circuit, from an empty transcript to its result.
use midnight_rs.Base.{ℕ, ◌≤◌, ◌≡◌, true, false, List, []}
use midnight_rs.Ir.Expr.{Circuit}
use midnight_rs.Interpreter.Monad.{Setting}
use midnight_rs.Interpreter.Eval.{eval}
use midnight_rs.Interpreter.Run.{Arguments, initial, execute}
use midnight_rs.Interpreter.Closed.Steps.{body_related}
use midnight_rs.Interpreter.Fuel.{
  Fits, Ends, Ends-IsClosed, eval-Fits, is_exhausted, Extends, Extends-IsClosed, eval-more_fuel,
}
use midnight_rs.Interpreter.Replay.{
  tape, Replayed, Follows, Follows-IsClosed, is_done, eval-Replayed,
}

-- A run that does not run out of fuel gives the same result, and leaves the same context, on any larger
-- fuel.
pub execute-more_fuel :
    (s : Setting)
    → (fuel fuel' : ℕ) → fuel ≤ fuel'
    → (c : Circuit) → (state : ℕ) → (args : Arguments) → (private_state : List ℕ)
    → is_exhausted ((execute s fuel c state args private_state).0) ≡ false
    → execute s fuel' c state args private_state ≡ execute s fuel c state args private_state
unfolding execute
execute-more_fuel s fuel fuel' le c state args private_state =
    body_related s Extends (Extends-IsClosed s) c (eval s fuel c.body) (eval s fuel' c.body)
      (eval-more_fuel s fuel fuel' le c.body) (initial c state args private_state)

-- The transcript of a run that succeeds is complete: the VM, given batches of the recorded operations one
-- after another from the contract's state, ends in the state of the result, and reads and logs on the
-- way, in order, the recorded reads and logs.
pub execute-Replayed :
    (s : Setting)
    → (fuel : ℕ) → (c : Circuit) → (state : ℕ) → (args : Arguments) → (private_state : List ℕ)
    → is_done ((execute s fuel c state args private_state).0) ≡ true
    → Replayed s
        (record { state = state; ops = []; reads = []; logs = [] })
        (tape ((execute s fuel c state args private_state).1))
unfolding execute
execute-Replayed s fuel c state args private_state =
    body_related s (Follows s) (Follows-IsClosed s) c (eval s fuel c.body) (eval s fuel c.body)
      (eval-Replayed s fuel c.body) (initial c state args private_state)

-- Fuel as deep as the body of a circuit nests, through the bodies of the circuits that it calls, is
-- enough: the run ends with a result or with an error of the program, however long its loops are, and it
-- is the same, with the context that it leaves, on any larger fuel.
pub execute-Fits :
    (s : Setting)
    → (fuel fuel' : ℕ) → fuel ≤ fuel'
    → (c : Circuit) → Fits s fuel c.body
    → (state : ℕ) → (args : Arguments) → (private_state : List ℕ)
    → (is_exhausted ((execute s fuel c state args private_state).0) ≡ false)
      × (execute s fuel' c state args private_state ≡ execute s fuel c state args private_state)
unfolding execute
execute-Fits s fuel fuel' le c fits state args private_state =
    let ends =
      body_related s Ends (Ends-IsClosed s) c (eval s fuel c.body) (eval s fuel c.body)
        (eval-Fits s fuel c.body fits) (initial c state args private_state) in
    (ends, execute-more_fuel s fuel fuel' le c state args private_state ends)
