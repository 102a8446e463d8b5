-- ===== src/Interpreter/Fuel.antt =====
-- crates/compact/interpreter/src/lib.rs: the fuel of an evaluation.
use midnight_rs.Base.{
  ℕ, zero, suc, ◌≤◌, ◌≡◌, refl, ap, ◌∙◌, Bool, true, false, List, Result, ok, err, arith,
}
use midnight_rs.Ir.Expr.{Expr}
use midnight_rs.Runtime.Value.{Try}
use midnight_rs.Interpreter.Monad.{
  Outcome, Event, Setting, Context, Run, on_outcome, outcome_of, after_query, ◌>>=◌, try, local,
  bind_local, scoped, push_zswap_output, push_zswap_input, push_private_output, infer, ask_witness,
  run_ops,
}
use midnight_rs.Interpreter.Eval.{eval}
use midnight_rs.Interpreter.Closed.{Relation, IsClosed}
use midnight_rs.Interpreter.Closed.Parts.{Within}
use midnight_rs.Interpreter.Closed.Steps.{step_related, more_fuel_related}

abbrev pub is_exhausted : {A : Type 0} → Outcome A → Bool
is_exhausted Outcome.out_of_fuel = true
is_exhausted _ = false

-- A run that gives what another gives, or runs out of fuel
abbrev pub Extends : Relation
Extends A m m' = (c : Context) → is_exhausted ((m c).0) ≡ false → m' c ≡ m c

on_outcome-extends :
    {A B : Type 0}
    → (o o' : Outcome A × Context) → (k k' : A → Run B) → (is_exhausted (o.0) ≡ false → o' ≡ o)
    → ((a : A) → Extends B (k a) (k' a))
    → is_exhausted ((on_outcome o k).0) ≡ false
    → on_outcome o' k' ≡ on_outcome o k
on_outcome-extends (Outcome.ok a, c) o' k k' p q t = ap (λ x. on_outcome x k') (p refl) ∙ q a c t
on_outcome-extends (Outcome.err e, c) o' k k' p q t = ap (λ x. on_outcome x k') (p refl)
on_outcome-extends (Outcome.out_of_fuel, c) o' k k' p q t = ground arith

abbrev restored : {A : Type 0} → Context → Outcome A × Context → Outcome A × Context
restored c (outcome, after) =
    (outcome, record after { locals = c.locals; local_types = c.local_types })

pub Extends-IsClosed : (s : Setting) → IsClosed s Extends
unfolding ◌>>=◌ scoped
Extends-IsClosed s = record {
  at_try = λ t c h. refl;
  at_bind = λ {A} {B} {m} {m'} {k} {k'} p q c h. on_outcome-extends (m c) (m' c) k k' (p c) q h;
  at_local = λ id c h. refl;
  at_bind_local = λ id v t c h. refl;
  at_scoped = λ ps vs {m} {m'} p c h. ap (λ x. restored c x) (p _ h);
  at_zswap_output = λ v w c h. refl;
  at_zswap_input = λ v c h. refl;
  at_private_output = λ av c h. refl;
  at_infer = λ e c h. refl;
  at_ask_witness = λ name vs c h. refl;
  at_run_ops = λ ops c h. refl;
}

-- An evaluation that does not run out of fuel gives the same outcome and leaves the same context on any
-- larger fuel: the fuel decides only whether the run ends.
pub eval-more_fuel :
    (s : Setting)
    → (fuel fuel' : ℕ) → fuel ≤ fuel'
    → (e : Expr) → (c : Context) → is_exhausted ((eval s fuel e c).0) ≡ false
    → eval s fuel' e c ≡ eval s fuel e c
eval-more_fuel s fuel fuel' le e c =
    more_fuel_related s Extends (Extends-IsClosed s) (λ m c' h. ground arith) fuel fuel' le e c

-- The nesting of an expression, through the bodies of the circuits that it calls, is at most so deep.
unfoldable pub Fits : Setting → ℕ → Expr → Type 0
unfolding Within
Fits s zero e = ⊥
Fits s (suc n) e = Within s (Fits s n) e

-- A run that does not run out of fuel
abbrev pub Ends : Relation
Ends A m m' = (c : Context) → is_exhausted ((m c).0) ≡ false

on_outcome-ends :
    {A B : Type 0}
    → (o : Outcome A × Context) → (k : A → Run B) → is_exhausted (o.0) ≡ false
    → ((a : A) → Ends B (k a) (k a))
    → is_exhausted ((on_outcome o k).0) ≡ false
on_outcome-ends (Outcome.ok a, c) k p q = q a c
on_outcome-ends (Outcome.err e, c) k p q = refl
on_outcome-ends (Outcome.out_of_fuel, c) k p q = p

outcome_of-ends : {A : Type 0} → (t : Try A) → is_exhausted (outcome_of t) ≡ false
outcome_of-ends (ok a) = refl
outcome_of-ends (err e) = refl

after_query-ends :
    (c : Context)
    → (answer : Result Unit (List Event × ℕ)) → is_exhausted ((after_query c answer).0) ≡ false
after_query-ends c (err e) = refl
after_query-ends c (ok (events, state)) = refl

pub Ends-IsClosed : (s : Setting) → IsClosed s Ends
unfolding ◌>>=◌ try local bind_local scoped push_zswap_output push_zswap_input push_private_output
    infer ask_witness run_ops
Ends-IsClosed s = record {
  at_try = λ t c. outcome_of-ends t;
  at_bind = λ {A} {B} {m} {m'} {k} {k'} p q c. on_outcome-ends (m c) k (p c) q;
  at_local = λ id c. outcome_of-ends _;
  at_bind_local = λ id v t c. refl;
  at_scoped = λ ps vs {m} {m'} p c. p _;
  at_zswap_output = λ v w c. refl;
  at_zswap_input = λ v c. refl;
  at_private_output = λ av c. refl;
  at_infer = λ e c. refl;
  at_ask_witness = λ name vs c. outcome_of-ends _;
  at_run_ops = λ ops c. after_query-ends _ _;
}

-- Fuel as deep as an expression nests is enough for it, whatever the context, and however long its loops
-- are: the evaluation ends with a value or with an error of the program.
pub eval-Fits :
    (s : Setting)
    → (fuel : ℕ) → (e : Expr) → Fits s fuel e
    → (c : Context) → is_exhausted ((eval s fuel e c).0) ≡ false
unfolding eval Fits
eval-Fits s zero e fits c = elim fits [ ]
eval-Fits s (suc fuel) e fits c =
    step_related s Ends (Ends-IsClosed s) (Fits s fuel) (eval s fuel) (eval s fuel)
      (λ e' fits' c'. eval-Fits s fuel e' fits' c') e fits c
