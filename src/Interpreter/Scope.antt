-- ===== src/Interpreter/Scope.antt =====
-- crates/compact/interpreter/src/lib.rs: what an evaluation does to the locals. The bindings of a `let*`
-- outlive its body; a callee runs in the locals of its caller, which the call puts back.
use midnight_rs.Base.{
  ℕ, ◌≡◌, refl, ap, ◌∙◌, Bool, true, false, not, some, is_some, List, [], ◌∷◌, ◌++◌, ◌==◌,
  if◌then◌else◌, retain, length, Result, ok, err, Bool-cases, inl, inr,
}
use midnight_rs.Ir.Text.{eq_text, eq_text-eq}
use midnight_rs.Ir.Expr.{Argument, Expr}
use midnight_rs.Runtime.Value.{Value, Values, InterpreterError}
use midnight_rs.Runtime.Encode.{values_length}
use midnight_rs.Interpreter.Infer.{Env, lookup, insert}
use midnight_rs.Interpreter.Monad.{
  outcome_of, refuse, Outcome, Op, Event, Setting, Context, Run, on_outcome, ◌>>=◌, try, local,
  bind_local, scoped, infer, ask_witness, run_ops, after_query, push_zswap_output, push_zswap_input,
  push_private_output,
}
use midnight_rs.Interpreter.Calls.{call_circuit, check_params}
use midnight_rs.Interpreter.Eval.{eval}
use midnight_rs.Interpreter.Closed.{Relation, IsClosed}
use midnight_rs.Interpreter.Closed.Steps.{eval_related}

-- `HashMap::insert` and then `get`
lookup-insert :
    {A : Type 0}
    → (id j : List ℕ) → (a : A) → (env : Env A)
    → lookup j (insert id a env) ≡ (if eq_text id j then some a else lookup j env)
lookup-insert id j a env = elim (Bool-cases (eq_text id j)) [
  | inl e ↦ rw e refl
  | inr e ↦ rw e (lookup-others id j e env)
]
  where
    lookup-others :
        {A : Type 0}
        → (id j : List ℕ) → eq_text id j ≡ false
        → (env : Env A) → lookup j (retain (λ e. not (eq_text e.0 id)) env) ≡ lookup j env
    lookup-others id j e [] = refl
    lookup-others id j e ((n, a) ∷ env) = elim (Bool-cases (eq_text n id)) [
      | inl h ↦
          let other : eq_text n j ≡ false = ap (λ m. eq_text m j) (eq_text-eq n id h) ∙ e in
          rw (h, other) (lookup-others id j e env)
      | inr h ↦ rw h (ap (λ o. if eq_text n j then some a else o) (lookup-others id j e env))
    ]

-- Each name that the first environment binds is bound by the second.
pub record IsWithin {A : Type 0} (env env' : Env A) : Type 0 where
  pub still : (id : List ℕ) → is_some (lookup id env) ≡ true → is_some (lookup id env') ≡ true

within_refl : {A : Type 0} → {env : Env A} → IsWithin env env
within_refl = record { still = λ id h. h }

within_trans : {A : Type 0} → {e e' e'' : Env A} → IsWithin e e' → IsWithin e' e'' → IsWithin e e''
within_trans p q = record { still = λ id h. q.still id (p.still id h) }

within_insert :
    {A : Type 0} → (id : List ℕ) → (a : A) → (env : Env A) → IsWithin env (insert id a env)
within_insert id a env = record {
  still = λ j h. elim (Bool-cases (eq_text id j)) [
    | inl e ↦ rw (lookup-insert id j a env, e) refl
    | inr e ↦ rw (lookup-insert id j a env, e) h
  ];
}

pub record Kept (c c' : Context) : Type 0 where
  pub values : IsWithin c.locals c'.locals
  pub types : IsWithin c.local_types c'.local_types

Kept-refl : (c : Context) → Kept c c
Kept-refl c = record { values = within_refl; types = within_refl }

abbrev Keeps : Relation
Keeps A m m' = (c : Context) → Kept c ((m c).1)

on_outcome-keeps :
    {A B : Type 0}
    → (c : Context) → (o : Outcome A × Context) → (k : A → Run B) → Kept c (o.1)
    → ((a : A) → Keeps B (k a) (k a))
    → Kept c ((on_outcome o k).1)
on_outcome-keeps c (Outcome.ok a, c') k g h =
    let g' = h a c' in
    record { values = within_trans g.values g'.values; types = within_trans g.types g'.types }
on_outcome-keeps c (Outcome.err e, c') k g h = g
on_outcome-keeps c (Outcome.out_of_fuel, c') k g h = g

after_query-keeps :
    (c : Context)
    → (ops : List Op) → (answer : Result Unit (List Event × ℕ))
    → Kept c ((after_query (record c { gather_ops = c.gather_ops ++ ops }) answer).1)
after_query-keeps c ops (err e) = record { values = within_refl; types = within_refl }
after_query-keeps c ops (ok (events, state)) = record { values = within_refl; types = within_refl }

Keeps-IsClosed : (s : Setting) → IsClosed s Keeps
unfolding ◌>>=◌ local scoped try bind_local push_zswap_output push_zswap_input push_private_output
    infer ask_witness run_ops
Keeps-IsClosed s = record {
  at_try = λ t c. Kept-refl c;
  at_bind = λ {A} {B} {m} {m'} {k} {k'} p q c. on_outcome-keeps c (m c) k (p c) q;
  at_local = λ id c. Kept-refl c;
  at_bind_local = λ id v t c. record {
    values = within_insert id v c.locals;
    types = within_insert id t c.local_types;
  };
  at_scoped = λ ps vs {m} {m'} p c. record { values = within_refl; types = within_refl };
  at_zswap_output = λ v w c. record { values = within_refl; types = within_refl };
  at_zswap_input = λ v c. record { values = within_refl; types = within_refl };
  at_private_output = λ av c. record { values = within_refl; types = within_refl };
  at_infer = λ e c. Kept-refl c;
  at_ask_witness = λ name vs c. record { values = within_refl; types = within_refl };
  at_run_ops = λ ops c. after_query-keeps c ops (s.query c.state ops);
}

eval-Kept : (s : Setting) → (fuel : ℕ) → (e : Expr) → (c : Context) → Kept c ((eval s fuel e c).1)
eval-Kept s fuel e c = eval_related s Keeps (Keeps-IsClosed s) Kept-refl fuel e c

-- The locals and their types as they were
abbrev pub SameScope : Context → Context → Type 0
SameScope c c' = (c'.locals ≡ c.locals) × (c'.local_types ≡ c.local_types)

on_outcome-scope :
    {A B : Type 0}
    → (c : Context) → (o : Outcome A) → (k : A → Run B) → ((a : A) → SameScope c ((k a c).1))
    → SameScope c ((on_outcome (o, c) k).1)
on_outcome-scope c (Outcome.ok a) k h = h a
on_outcome-scope c (Outcome.err e) k h = (refl, refl)
on_outcome-scope c Outcome.out_of_fuel k h = (refl, refl)

call_circuit-scope :
    (s : Setting)
    → (ev : Expr → Run Value) → (ps : List Argument) → (body : Expr) → (vs : Values) → (c : Context)
    → SameScope c ((call_circuit s ev ps body vs c).1)
unfolding call_circuit ◌>>=◌ try scoped
call_circuit-scope s ev ps body vs c = on_count (length ps == values_length vs)
  where
    on_count :
        (b : Bool)
        → SameScope c (
            ((if b
                then (try (check_params ps) >>= λ u. scoped ps vs (ev body))
                else refuse InterpreterError.type_error)
              c).1)
    on_count true =
        on_outcome-scope c (outcome_of (check_params ps)) (λ u. scoped ps vs (ev body))
          (λ u. (refl, refl))
    on_count false = (refl, refl)

-- An evaluation, whatever its outcome, unbinds no name: a name that had a value has one after it, and a
-- name that had a type has one. A call of a circuit, or of the body of a loop, leaves exactly the
-- locals and the types that there were before it, however it ends.
pub eval-Kept_call :
    (s : Setting)
    → (fuel : ℕ) → (c : Context) → (e : Expr) → (ps : List Argument) → (body : Expr) → (vs : Values)
    → Kept c ((eval s fuel e c).1) × SameScope c ((call_circuit s (eval s fuel) ps body vs c).1)
eval-Kept_call s fuel c e ps body vs =
    (eval-Kept s fuel e c, call_circuit-scope s (eval s fuel) ps body vs c)
