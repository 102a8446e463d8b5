-- ===== src/Interpreter/Transcript.antt =====
-- crates/compact/interpreter/src/lib.rs: the transcript of a run, that is what its operations, reads,
-- private outputs, requested coins and logs are, in order.
use midnight_rs.Base.{
  ℕ, ◌≡◌, refl, sym, ap, ◌∙◌, List, [], ◌++◌, append-nil, append_assoc, Result, ok, err,
}
use midnight_rs.Ir.Expr.{Expr}
use midnight_rs.Runtime.Value.{Value}
use midnight_rs.Interpreter.Monad.{
  Outcome, Op, Event, Setting, Context, Run, on_outcome, ◌>>=◌, try, local, bind_local, scoped,
  bind_values, bind_types, infer, ask_witness, run_ops, after_query, push_zswap_output,
  push_zswap_input, push_private_output,
}
use midnight_rs.Interpreter.Eval.{eval}
use midnight_rs.Interpreter.Closed.{Relation, IsClosed}
use midnight_rs.Interpreter.Closed.Steps.{eval_related}

-- A list that begins another, and what the other adds
pub record IsPrefix {A : Type 0} (xs ys : List A) : Type 0 where
  pub added : List A
  pub joined : xs ++ added ≡ ys

stays : {A : Type 0} → {xs : List A} → IsPrefix xs xs
stays {A} {xs} = record { added = []; joined = append-nil xs }

adds : {A : Type 0} → {xs : List A} → (ys : List A) → IsPrefix xs (xs ++ ys)
adds ys = record { added = ys; joined = refl }

prefix_trans : {A : Type 0} → {xs ys zs : List A} → IsPrefix xs ys → IsPrefix ys zs → IsPrefix xs zs
prefix_trans {A} {xs} {ys} {zs} p q = record {
  added = p.added ++ q.added;
  joined = sym (append_assoc xs p.added q.added) ∙ ap (λ l. l ++ q.added) p.joined ∙ q.joined;
}

-- Every list of a context's transcript begins that of a later context.
pub record Grown (c c' : Context) : Type 0 where
  pub ops : IsPrefix c.gather_ops c'.gather_ops
  pub read : IsPrefix c.reads c'.reads
  pub logged : IsPrefix c.logs c'.logs
  pub outputs : IsPrefix c.private_outputs c'.private_outputs
  pub coins_out : IsPrefix c.zswap_outputs c'.zswap_outputs
  pub coins_in : IsPrefix c.zswap_inputs c'.zswap_inputs

grown :
    {c c' : Context}
    → IsPrefix c.gather_ops c'.gather_ops
    → IsPrefix c.reads c'.reads
    → IsPrefix c.logs c'.logs
    → IsPrefix c.private_outputs c'.private_outputs
    → IsPrefix c.zswap_outputs c'.zswap_outputs
    → IsPrefix c.zswap_inputs c'.zswap_inputs
    → Grown c c'
grown a b d e f g = record {
  ops = a;
  read = b;
  logged = d;
  outputs = e;
  coins_out = f;
  coins_in = g;
}

Grown-refl : (c : Context) → Grown c c
Grown-refl c = grown stays stays stays stays stays stays

Grown-trans : {c c' c'' : Context} → Grown c c' → Grown c' c'' → Grown c c''
Grown-trans g h = record {
  ops = prefix_trans g.ops h.ops;
  read = prefix_trans g.read h.read;
  logged = prefix_trans g.logged h.logged;
  outputs = prefix_trans g.outputs h.outputs;
  coins_out = prefix_trans g.coins_out h.coins_out;
  coins_in = prefix_trans g.coins_in h.coins_in;
}

abbrev Grows : Relation
Grows A m m' = (c : Context) → Grown c ((m c).1)

on_outcome-grows :
    {A B : Type 0}
    → (c : Context) → (o : Outcome A × Context) → (k : A → Run B) → Grown c (o.1)
    → ((a : A) → Grows B (k a) (k a))
    → Grown c ((on_outcome o k).1)
on_outcome-grows c (Outcome.ok a, c') k g h = Grown-trans g (h a c')
on_outcome-grows c (Outcome.err e, c') k g h = g
on_outcome-grows c (Outcome.out_of_fuel, c') k g h = g

after_query-grows :
    (c : Context)
    → (ops : List Op) → (answer : Result Unit (List Event × ℕ))
    → Grown c ((after_query (record c { gather_ops = c.gather_ops ++ ops }) answer).1)
after_query-grows c ops (err e) = grown (adds _) stays stays stays stays stays
after_query-grows c ops (ok (events, state)) = grown (adds _) (adds _) (adds _) stays stays stays

local-grows : (id : List ℕ) → Grows Value (local id) (local id)
unfolding local
local-grows id c = Grown-refl c

Grows-IsClosed : (s : Setting) → IsClosed s Grows
unfolding ◌>>=◌ scoped try bind_local push_zswap_output push_zswap_input push_private_output infer
    ask_witness run_ops
Grows-IsClosed s = record {
  at_try = λ t c. Grown-refl c;
  at_bind = λ {A} {B} {m} {m'} {k} {k'} p q c. on_outcome-grows c (m c) k (p c) q;
  at_local = local-grows;
  at_bind_local = λ id v t c. grown stays stays stays stays stays stays;
  at_scoped = λ ps vs {m} {m'} p c.
      let g = p (record c {
        locals = bind_values ps vs c.locals;
        local_types = bind_types ps c.local_types;
      }) in
      grown g.ops g.read g.logged g.outputs g.coins_out g.coins_in;
  at_zswap_output = λ v w c. grown stays stays stays stays (adds _) stays;
  at_zswap_input = λ v c. grown stays stays stays stays stays (adds _);
  at_private_output = λ av c. grown stays stays stays (adds _) stays stays;
  at_infer = λ e c. Grown-refl c;
  at_ask_witness = λ name vs c. grown stays stays stays stays stays stays;
  at_run_ops = λ ops c. after_query-grows c ops (s.query c.state ops);
}

-- Whatever an evaluation gives, an error or a stop for want of fuel included, it keeps the transcript
-- that there was: the lists of operations, reads, logs, private outputs and requested coins that it
-- leaves begin with those it started from.
pub eval-Grown :
    (s : Setting) → (fuel : ℕ) → (e : Expr) → (c : Context) → Grown c ((eval s fuel e c).1)
eval-Grown s fuel e c = eval_related s Grows (Grows-IsClosed s) Grown-refl fuel e c
