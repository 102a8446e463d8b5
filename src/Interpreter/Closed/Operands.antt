-- ===== src/Interpreter/Closed/Operands.antt =====
-- crates/compact/interpreter/src/lib.rs: lemmas on ledger operations, for a relation between runs.
use midnight_rs.Base.{ℕ, inl, inr, Bool-cases, Option, none, some, List}
use midnight_rs.Ir.Text.{bytes_of, eq_text}
use midnight_rs.Ir.OpName.{OpName}
use midnight_rs.Ir.Expr.{
  Expr, Operand, Operands, Entries, StateOperand, OpArgs, Instructions, arg_of,
}
use midnight_rs.Runtime.Value.{Value}
use midnight_rs.Interpreter.Monad.{Op, Setting, Run, pure}
use midnight_rs.Interpreter.Ops.{
  adt_default, operand_aligned, state_aligned, operands_aligned, scalar_value, pushed_default,
  default_or, push_value, push_state, push_all, push_entries, path_key, path_keys,
  resolve_immediate, with_path, build_op, on_operand, idx_of, with_operand, build_ops,
  exec_ledger_query,
}
use midnight_rs.Interpreter.Closed.Parts.{
  OfOperand, OfState, AllOperands, AllEntries, AllOpArgs, AllInstructions,
}
use midnight_rs.Interpreter.Closed.{Relation, IsClosed}
use midnight_rs.Interpreter.Closed.Calls.{pure_related, on_test}

module _ (s : Setting) (R : Relation) (C : IsClosed s R) (P : Expr → Type 0)
    (ev ev' : Expr → Run Value) (h : (e : Expr) → P e → R _ (ev e) (ev' e)) where
  abbrev gives : {A : Type 0} → (a : A) → R _ (pure a) (pure a)
  gives a = pure_related s R C a

  mutual
    unfolding operand_aligned OfOperand

    pub operand_related :
        (o : Operand) → OfOperand s P o → R _ (operand_aligned s ev o) (operand_aligned s ev' o)
    operand_related (Operand.expr e) p =
        C.at_bind (C.at_infer e) λ t. C.at_bind (h e p) λ v. C.at_try _
    operand_related (Operand.align value n) p = C.at_try _
    operand_related (Operand.int n) p = C.at_try _
    operand_related (Operand.bool b) p = gives _
    operand_related (Operand.null ty) p = C.at_try _
    operand_related (Operand.leaf_hash o) p = C.at_bind (operand_related o p) λ av. gives _
    operand_related (Operand.aligned_concat os) p =
        C.at_bind (operands_related os p) λ parts. gives _
    operand_related (Operand.value_to_int o) p = operand_related o p
    operand_related (Operand.state_value so) p = state_related so p
    operand_related (Operand.str bs) p = C.at_try _
    operand_related Operand.stack p = C.at_try _
    operand_related Operand.void p = C.at_try _
    operand_related (Operand.max_sizeof ty) p = C.at_try _
    operand_related (Operand.plus l r) p = C.at_try _
    operand_related (Operand.coin_commit l r) p = C.at_try _
    operand_related (Operand.list os) p = C.at_try _

    state_related :
        (so : StateOperand) → OfState s P so → R _ (state_aligned s ev so) (state_aligned s ev' so)
    state_related (StateOperand.cell o) p = operand_related o p
    state_related (StateOperand.of_adt o ty) p = operand_related o p
    state_related StateOperand.null_state p = C.at_try _
    state_related (StateOperand.array os) p = C.at_try _
    state_related (StateOperand.map_of es) p = C.at_try _
    state_related (StateOperand.merkle_tree depth es) p = C.at_try _

    operands_related :
        (os : Operands)
        → AllOperands s P os
        → R _ (operands_aligned s ev os) (operands_aligned s ev' os)
    operands_related Operands.no_operands p = gives _
    operands_related (Operands.more_operands o os) (p, ps) =
        C.at_bind (operand_related o p) λ av. C.at_bind (operands_related os ps) λ parts. gives _

  scalar_related :
      (o : Operand) → OfOperand s P o → R _ (scalar_value s ev o) (scalar_value s ev' o)
  scalar_related o p = on_test s R C _ (gives _) (C.at_bind (operand_related o p) λ av. gives _)

  default_related : (name : List ℕ) → R _ (pushed_default s ev name) (pushed_default s ev' name)
  default_related name = on_test s R C _ (gives _) (C.at_try _)

  default_or_related :
      (d : Option (List ℕ))
      → (o : Operand) → OfOperand s P o
      → R _ (default_or s ev d o) (default_or s ev' d o)
  default_or_related (some name) o p = default_related name
  default_or_related none o p = scalar_related o p

  mutual
    unfolding push_value OfOperand

    push_related : (o : Operand) → OfOperand s P o → R _ (push_value s ev o) (push_value s ev' o)
    push_related (Operand.state_value so) p = push_state_related so p
    push_related (Operand.int n) p = scalar_related (Operand.int n) p
    push_related (Operand.bool b) p = scalar_related (Operand.bool b) p
    push_related (Operand.str bs) p = scalar_related (Operand.str bs) p
    push_related (Operand.align value n) p = scalar_related (Operand.align value n) p
    push_related Operand.stack p = scalar_related Operand.stack p
    push_related Operand.void p = scalar_related Operand.void p
    push_related (Operand.value_to_int o) p = scalar_related (Operand.value_to_int o) p
    push_related (Operand.null ty) p = scalar_related (Operand.null ty) p
    push_related (Operand.max_sizeof ty) p = scalar_related (Operand.max_sizeof ty) p
    push_related (Operand.plus l r) p = scalar_related (Operand.plus l r) p
    push_related (Operand.leaf_hash o) p = scalar_related (Operand.leaf_hash o) p
    push_related (Operand.coin_commit l r) p = scalar_related (Operand.coin_commit l r) p
    push_related (Operand.aligned_concat os) p = scalar_related (Operand.aligned_concat os) p
    push_related (Operand.expr e) p = scalar_related (Operand.expr e) p
    push_related (Operand.list os) p = scalar_related (Operand.list os) p

    push_state_related :
        (so : StateOperand) → OfState s P so → R _ (push_state s ev so) (push_state s ev' so)
    push_state_related (StateOperand.array os) p = C.at_bind (push_all_related os p) λ vs. gives _
    push_state_related (StateOperand.map_of es) p =
        C.at_bind (push_entries_related es p) λ vs. gives _
    push_state_related (StateOperand.merkle_tree depth es) p =
        on_test s R C _ (C.at_try _) (C.at_bind (C.at_try _) λ height. gives _)
    push_state_related (StateOperand.of_adt o ty) p =
        default_or_related (adt_default o ty) (Operand.state_value (StateOperand.of_adt o ty)) p
    push_state_related StateOperand.null_state p =
        scalar_related (Operand.state_value StateOperand.null_state) p
    push_state_related (StateOperand.cell o) p =
        scalar_related (Operand.state_value (StateOperand.cell o)) p

    push_all_related :
        (os : Operands) → AllOperands s P os → R _ (push_all s ev os) (push_all s ev' os)
    push_all_related Operands.no_operands p = gives _
    push_all_related (Operands.more_operands o os) (p, ps) =
        C.at_bind (push_related o p) λ v. C.at_bind (push_all_related os ps) λ vs. gives _

    push_entries_related :
        (es : Entries) → AllEntries s P es → R _ (push_entries s ev es) (push_entries s ev' es)
    push_entries_related Entries.no_entries p = gives _
    push_entries_related (Entries.more_entries k o es) (q, p, ps) =
        C.at_bind (operand_related k q) λ key.
          C.at_bind (push_related o p) λ v. C.at_bind (push_entries_related es ps) λ vs. gives _

  key_related : (o : Operand) → OfOperand s P o → R _ (path_key s ev o) (path_key s ev' o)
  key_related Operand.stack p = gives _
  key_related (Operand.align value n) p =
      C.at_bind (operand_related (Operand.align value n) p) λ av. gives _
  key_related (Operand.expr e) p = C.at_bind (operand_related (Operand.expr e) p) λ av. gives _
  key_related _ p = C.at_try _

  keys_related : (os : Operands) → AllOperands s P os → R _ (path_keys s ev os) (path_keys s ev' os)
  unfolding path_keys OfOperand
  keys_related Operands.no_operands p = gives _
  keys_related (Operands.more_operands o os) (p, ps) =
      C.at_bind (key_related o p) λ key. C.at_bind (keys_related os ps) λ keys. gives _

  immediate_related :
      (o : Operand) → OfOperand s P o → R _ (resolve_immediate s ev o) (resolve_immediate s ev' o)
  unfolding resolve_immediate OfOperand
  immediate_related (Operand.int n) p = C.at_try _
  immediate_related (Operand.expr e) p = C.at_bind (h e p) λ v. C.at_try _
  immediate_related (Operand.value_to_int o) p = immediate_related o p
  immediate_related (Operand.state_value (StateOperand.cell o)) p = immediate_related o p
  immediate_related (Operand.state_value (StateOperand.of_adt o ty)) p = immediate_related o p
  immediate_related _ p = C.at_try _

  abbrev OfOption : Option Operand → Type 0
  OfOption (some o) = OfOperand s P o
  OfOption none = Unit

  arg_of-All : (args : OpArgs) → (name : List ℕ) → AllOpArgs s P args → OfOption (arg_of args name)
  unfolding AllOpArgs
  arg_of-All OpArgs.no_op_args name p = tt
  arg_of-All (OpArgs.more_op_args n o args) name (p, ps) = elim (Bool-cases (eq_text n name)) [
    | inl t ↦ rw t p
    | inr f ↦ rw f (arg_of-All args name ps)
  ]

  on_operand_related :
      {A : Type 0}
      → (o : Option Operand) → (k k' : Operand → Run A) → OfOption o
      → ((x : Operand) → OfOperand s P x → R _ (k x) (k' x))
      → R _ (on_operand s ev o k) (on_operand s ev' o k')
  on_operand_related (some o) k k' p q = q o p
  on_operand_related none k k' p q = C.at_try _

  path_related :
      (o : Option Operand)
      → (k k' : Operands → Run Op) → OfOption o
      → ((os : Operands) → AllOperands s P os → R _ (k os) (k' os))
      → R _ (with_path s ev o k) (with_path s ev' o k')
  unfolding OfOperand
  path_related (some (Operand.list os)) k k' p q = q os p
  path_related _ k k' p q = C.at_try _

  with_operand_related :
      {A : Type 0}
      → (args : OpArgs) → (name : List ℕ) → (k k' : Operand → Run A) → AllOpArgs s P args
      → ((x : Operand) → OfOperand s P x → R _ (k x) (k' x))
      → R _ (with_operand s ev args name k) (with_operand s ev' args name k')
  with_operand_related args name k k' p q =
      on_operand_related (arg_of args name) k k' (arg_of-All args name p) q

  idx_related :
      (args : OpArgs)
      → (os : Operands) → AllOperands s P os
      → R _ (idx_of s ev args os) (idx_of s ev' args os)
  unfolding idx_of
  idx_related args os p = C.at_bind (keys_related os p) λ keys. gives _

  immediate_of :
      (args : OpArgs)
      → AllOpArgs s P args
      → R _
          (with_operand s ev args (bytes_of "immediate") (resolve_immediate s ev))
          (with_operand s ev' args (bytes_of "immediate") (resolve_immediate s ev'))
  immediate_of args p =
      with_operand_related args (bytes_of "immediate") (resolve_immediate s ev)
        (resolve_immediate s ev') p immediate_related

  op_related :
      (op : OpName)
      → (args : OpArgs) → AllOpArgs s P args
      → R _ (build_op s ev op args) (build_op s ev' op args)
  unfolding build_op AllOpArgs
  op_related OpName.idx args p =
      path_related (arg_of args (bytes_of "path")) (idx_of s ev args) (idx_of s ev' args)
        (arg_of-All args (bytes_of "path") p) (idx_related args)
  op_related OpName.push args p =
      C.at_bind
        (with_operand_related args (bytes_of "value") (push_value s ev) (push_value s ev') p
          push_related)
        λ v. gives _
  op_related OpName.addi args p = C.at_bind (immediate_of args p) λ n. gives _
  op_related OpName.subi args p = C.at_bind (immediate_of args p) λ n. gives _
  op_related OpName.ins args p = C.at_bind (C.at_try _) λ k. gives _
  op_related OpName.dup args p = gives _
  op_related OpName.swap args p = gives _
  op_related OpName.popeq args p = gives _
  op_related OpName.rem args p = gives _
  op_related OpName.noop args p = C.at_bind (C.at_try _) λ k. gives _
  op_related OpName.branch args p = C.at_bind (C.at_try _) λ k. gives _
  op_related OpName.jmp args p = C.at_bind (C.at_try _) λ k. gives _
  op_related OpName.concat args p = C.at_bind (C.at_try _) λ k. gives _
  op_related OpName.member args p = gives _
  op_related OpName.root args p = gives _
  op_related OpName.eq args p = gives _
  op_related OpName.lt args p = gives _
  op_related OpName.ckpt args p = gives _
  op_related OpName.neg args p = gives _
  op_related OpName.add args p = gives _
  op_related OpName.pop args p = gives _
  op_related OpName.size args p = gives _
  op_related OpName.type args p = gives _
  op_related OpName.log args p = gives _
  op_related _ args p = C.at_try _

  ops_related :
      (is : Instructions) → AllInstructions s P is → R _ (build_ops s ev is) (build_ops s ev' is)
  unfolding build_ops AllInstructions
  ops_related Instructions.no_instructions p = gives _
  ops_related (Instructions.more_instructions op args is) (p, ps) =
      C.at_bind (op_related op args p) λ o. C.at_bind (ops_related is ps) λ ops. gives _

  pub query_related :
      (is : Instructions)
      → AllInstructions s P is
      → R _ (exec_ledger_query s ev is) (exec_ledger_query s ev' is)
  unfolding exec_ledger_query
  query_related is p = C.at_bind (ops_related is p) λ ops. C.at_run_ops ops
