-- ===== src/Interpreter/Replay.antt =====
-- crates/compact/interpreter/src/lib.rs: the ledger side of a run, and its transcript.
use midnight_rs.Base.{
  ℕ, ◌≡◌, refl, ap, ◌∙◌, fun_ext, Bool, true, false, Option, none, some, List, [], ◌∷◌, ◌++◌,
  Result, ok, err, arith,
}
use midnight_rs.Ir.Expr.{Expr}
use midnight_rs.Runtime.Value.{AlignedValue}
use midnight_rs.Runtime.Layout.{◌>>?◌}
use midnight_rs.Interpreter.Monad.{
  Outcome, Op, Event, Setting, Context, Run, on_outcome, ◌>>=◌, try, local, bind_local, scoped,
  infer, ask_witness, run_ops, after_query, push_zswap_output, push_zswap_input,
  push_private_output, reads_of, logs_of,
}
use midnight_rs.Interpreter.Eval.{eval}
use midnight_rs.Interpreter.Closed.{Relation, IsClosed}
use midnight_rs.Interpreter.Closed.Steps.{eval_related}

-- What a replay keeps of a context.
pub record Tape : Type 0 where
  pub state : ℕ
  pub ops : List Op
  pub reads : List AlignedValue
  pub logs : List ℕ

abbrev pub tape : Context → Tape
tape c = record { state = c.state; ops = c.gather_ops; reads = c.reads; logs = c.logs }

abbrev recorded : Tape → List Op → Result Unit (List Event × ℕ) → Option Tape
recorded t ops (err e) = none
recorded t ops (ok (events, after)) = some (record {
  state = after;
  ops = t.ops ++ ops;
  reads = t.reads ++ reads_of events;
  logs = t.logs ++ logs_of events;
})

-- The VM on batches of operations, one after another.
abbrev pub replay : Setting → Tape → List (List Op) → Option Tape
replay s t [] = some t
replay s t (ops ∷ batches) = recorded t ops (s.query t.state ops) >>? λ t'. replay s t' batches

abbrev pub Replayed : Setting → Tape → Tape → Type 0
Replayed s t t' = (batches : List (List Op)) × (replay s t batches ≡ some t')

abbrev pub is_done : {A : Type 0} → Outcome A → Bool
is_done (Outcome.ok a) = true
is_done _ = false

then_replay :
    (s : Setting)
    → (t : Option Tape) → (bs : List (List Op)) → (t' t'' : Tape) → t ≡ some t'
    → replay s t' bs ≡ some t''
    → (t >>? λ u. replay s u bs) ≡ some t''
then_replay s t bs t' t'' p q = ap (λ x. x >>? λ u. replay s u bs) p ∙ q

then_then :
    {A B D : Type 0}
    → (m : Option A) → (f : A → Option B) → (g : B → Option D)
    → (m >>? λ a. f a >>? g) ≡ (m >>? f >>? g)
then_then none f g = refl
then_then (some a) f g = refl

replay-append :
    (s : Setting)
    → (t : Tape) → (bs bs' : List (List Op))
    → replay s t (bs ++ bs') ≡ (replay s t bs >>? λ u. replay s u bs')
replay-append s t [] bs' = refl
replay-append s t (ops ∷ bs) bs' =
    ap (λ f. recorded t ops (s.query t.state ops) >>? f) (fun_ext λ u. replay-append s u bs bs')
    ∙ then_then (recorded t ops (s.query t.state ops)) (λ u. replay s u bs) (λ u. replay s u bs')

Replayed-trans :
    (s : Setting) → {t t' t'' : Tape} → Replayed s t t' → Replayed s t' t'' → Replayed s t t''
Replayed-trans s {t} {t'} {t''} (bs, p) (bs', q) =
    (bs ++ bs', replay-append s t bs bs' ∙ then_replay s (replay s t bs) bs' t' t'' p q)

module _ (s : Setting) where
  abbrev pub Follows : Relation
  Follows A m m' = (c : Context) → is_done ((m c).0) ≡ true → Replayed s (tape c) (tape ((m c).1))

  same : (t : Tape) → Replayed s t t
  same t = ([], refl)

  on_outcome-follows :
      {A B : Type 0}
      → (t : Tape) → (o : Outcome A × Context) → (k : A → Run B)
      → (is_done (o.0) ≡ true → Replayed s t (tape (o.1)))
      → ((a : A) → Follows B (k a) (k a))
      → is_done ((on_outcome o k).0) ≡ true
      → Replayed s t (tape ((on_outcome o k).1))
  on_outcome-follows t (Outcome.ok a, c) k p q h = Replayed-trans s (p refl) (q a c h)
  on_outcome-follows t (Outcome.err e, c) k p q h = ground arith
  on_outcome-follows t (Outcome.out_of_fuel, c) k p q h = ground arith

  after_query-follows :
      (c : Context)
      → (ops : List Op) → (answer : Result Unit (List Event × ℕ)) → s.query c.state ops ≡ answer
      → let out = after_query (record c { gather_ops = c.gather_ops ++ ops }) answer in
        is_done (out.0) ≡ true → Replayed s (tape c) (tape (out.1))
  after_query-follows c ops (err e) p h = ground arith
  after_query-follows c ops (ok (events, after)) p h =
      (ops ∷ [], ap (λ a. recorded (tape c) ops a >>? λ t. some t) p)

  pub Follows-IsClosed : IsClosed s Follows
  unfolding ◌>>=◌ local scoped try bind_local push_zswap_output push_zswap_input push_private_output
      infer ask_witness run_ops
  Follows-IsClosed = record {
    at_try = λ t c h. same _;
    at_bind = λ {A} {B} {m} {m'} {k} {k'} p q c h. on_outcome-follows (tape c) (m c) k (p c) q h;
    at_local = λ id c h. same _;
    at_bind_local = λ id v t c h. same _;
    at_scoped = λ ps vs {m} {m'} p c h. p _ h;
    at_zswap_output = λ v w c h. same _;
    at_zswap_input = λ v c h. same _;
    at_private_output = λ av c h. same _;
    at_infer = λ e c h. same _;
    at_ask_witness = λ name vs c h. same _;
    at_run_ops = λ ops c h. after_query-follows c ops _ refl h;
  }

-- The transcript of an evaluation that gives a value explains its ledger side: there are batches of
-- operations that the VM runs one after another from the state that there was, and their operations,
-- reads and logs, in order, are those that the evaluation added, and their last state is the one that it
-- leaves.
pub eval-Replayed :
    (s : Setting)
    → (fuel : ℕ) → (e : Expr) → (c : Context) → is_done ((eval s fuel e c).0) ≡ true
    → Replayed s (tape c) (tape ((eval s fuel e c).1))
eval-Replayed s fuel e c =
    eval_related s (Follows s) (Follows-IsClosed s) (λ c' h. ground arith) fuel e c
