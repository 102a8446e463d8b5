-- ===== src/Interpreter/Closed/Parts.antt =====
-- crates/compact/interpreter/src/lib.rs: the expressions that a step of `eval_expr` on an expression
-- evaluates, the bodies of the circuits that it calls included.
use midnight_rs.Base.{Option, none, some}
use midnight_rs.Ir.Expr.{
  Expr, Exprs, TupleArgs, MapArgs, Fun, Bindings, Operand, Operands, Entries, StateOperand, OpArgs,
  Instructions, Circuit,
}
use midnight_rs.Interpreter.Program.{Callee, callee, circuit_of}
use midnight_rs.Interpreter.Monad.{Setting}

module _ (s : Setting) (P : Expr → Type 0) where
  abbrev pub AllExprs : Exprs → Type 0
  AllExprs Exprs.no_exprs = Unit
  AllExprs (Exprs.more_exprs e es) = P e × AllExprs es

  abbrev pub AllParts : TupleArgs → Type 0
  AllParts TupleArgs.no_parts = Unit
  AllParts (TupleArgs.single e args) = P e × AllParts args
  AllParts (TupleArgs.spread len e args) = P e × AllParts args

  abbrev pub AllArgs : MapArgs → Type 0
  AllArgs MapArgs.no_args = Unit
  AllArgs (MapArgs.more_args e ty element args) = P e × AllArgs args

  abbrev pub AllBindings : Bindings → Type 0
  AllBindings Bindings.no_bindings = Unit
  AllBindings (Bindings.bind binder e bs) = P e × AllBindings bs

  abbrev pub OfCallee : Callee → Type 0
  OfCallee (Callee.circuit c) = P c.body
  OfCallee _ = Unit

  abbrev pub OfRef : Option Circuit → Type 0
  OfRef (some c) = P c.body
  OfRef none = Unit

  abbrev pub OfFun : Fun → Type 0
  OfFun (Fun.ref id) = OfRef (circuit_of s.program id)
  OfFun (Fun.circuit params result body) = P body

  unfoldable mutual
    pub OfOperand : Operand → Type 0
    OfOperand (Operand.expr e) = P e
    OfOperand (Operand.value_to_int o) = OfOperand o
    OfOperand (Operand.leaf_hash o) = OfOperand o
    OfOperand (Operand.aligned_concat os) = AllOperands os
    OfOperand (Operand.list os) = AllOperands os
    OfOperand (Operand.state_value so) = OfState so
    OfOperand _ = Unit

    pub OfState : StateOperand → Type 0
    OfState (StateOperand.cell o) = OfOperand o
    OfState (StateOperand.of_adt o ty) = OfOperand o
    OfState (StateOperand.array os) = AllOperands os
    OfState (StateOperand.map_of es) = AllEntries es
    OfState _ = Unit

    pub AllOperands : Operands → Type 0
    AllOperands Operands.no_operands = Unit
    AllOperands (Operands.more_operands o os) = OfOperand o × AllOperands os

    pub AllEntries : Entries → Type 0
    AllEntries Entries.no_entries = Unit
    AllEntries (Entries.more_entries k o es) = OfOperand k × OfOperand o × AllEntries es

  unfoldable pub AllOpArgs : OpArgs → Type 0
  unfolding OfOperand
  AllOpArgs OpArgs.no_op_args = Unit
  AllOpArgs (OpArgs.more_op_args name o args) = OfOperand o × AllOpArgs args

  unfoldable pub AllInstructions : Instructions → Type 0
  unfolding AllOpArgs
  AllInstructions Instructions.no_instructions = Unit
  AllInstructions (Instructions.more_instructions op args is) = AllOpArgs args × AllInstructions is

  -- Every expression that a step evaluates has the property.
  unfoldable pub Within : Expr → Type 0
  unfolding callee AllInstructions
  Within (Expr.cond c t e) = P c × P t × P e
  Within (Expr.elt_ref e elt index) = P e
  Within (Expr.tuple args) = AllParts args
  Within (Expr.vector_lit args) = AllParts args
  Within (Expr.tuple_ref e index) = P e
  Within (Expr.tuple_slice ty e index len) = P e
  Within (Expr.vector_ref ty e index) = P e × P index
  Within (Expr.vector_slice ty e index len) = P e × P index
  Within (Expr.bytes_ref ty e index) = P e × P index
  Within (Expr.bytes_slice ty e index len) = P e × P index
  Within (Expr.add ty l r) = P l × P r
  Within (Expr.sub ty l r) = P l × P r
  Within (Expr.mul ty l r) = P l × P r
  Within (Expr.lt n l r) = P l × P r
  Within (Expr.le n l r) = P l × P r
  Within (Expr.gt n l r) = P l × P r
  Within (Expr.ge n l r) = P l × P r
  Within (Expr.eq ty l r) = P l × P r
  Within (Expr.neq ty l r) = P l × P r
  Within (Expr.map len fun args) = AllArgs args × OfFun fun
  Within (Expr.fold len fun init ty args) = P init × AllArgs args × OfFun fun
  Within (Expr.call name args) = AllExprs args × OfCallee (callee s.program name)
  Within (Expr.new ty es) = AllExprs es
  Within (Expr.seq es) = AllExprs es
  Within (Expr.let_star bs body) = AllBindings bs × P body
  Within (Expr.assert e message) = P e
  Within (Expr.field_to_bytes len f e) = P e
  Within (Expr.cast_from_bytes ty len e) = P e
  Within (Expr.vector_to_bytes len e) = P e
  Within (Expr.bytes_to_vector len e) = P e
  Within (Expr.cast_from_enum ty from e) = P e
  Within (Expr.cast_to_enum ty from e) = P e
  Within (Expr.safe_cast ty from e) = P e
  Within (Expr.cast_to_field f from e) = P e
  Within (Expr.cast_from_field maxval f e) = P e
  Within (Expr.downcast_unsigned from to e) = P e
  Within (Expr.emit version tag len payload is) = AllInstructions is
  Within (Expr.public_ledger field class path op result is args) = AllInstructions is
  Within (Expr.return e) = P e
  Within _ = Unit

module _ (s : Setting) (P : Expr → Type 0) (every : (e : Expr) → P e) where
  every_expr : (es : Exprs) → AllExprs s P es
  every_expr Exprs.no_exprs = tt
  every_expr (Exprs.more_exprs e es) = (every e, every_expr es)

  every_part : (args : TupleArgs) → AllParts s P args
  every_part TupleArgs.no_parts = tt
  every_part (TupleArgs.single e args) = (every e, every_part args)
  every_part (TupleArgs.spread len e args) = (every e, every_part args)

  every_arg : (args : MapArgs) → AllArgs s P args
  every_arg MapArgs.no_args = tt
  every_arg (MapArgs.more_args e ty element args) = (every e, every_arg args)

  every_binding : (bs : Bindings) → AllBindings s P bs
  every_binding Bindings.no_bindings = tt
  every_binding (Bindings.bind binder e bs) = (every e, every_binding bs)

  of_callee : (c : Callee) → OfCallee s P c
  of_callee (Callee.circuit c) = every c.body
  of_callee Callee.witness = tt
  of_callee Callee.pure = tt

  of_ref : (c : Option Circuit) → OfRef s P c
  of_ref (some c) = every c.body
  of_ref none = tt

  of_fun : (fun : Fun) → OfFun s P fun
  of_fun (Fun.ref id) = of_ref (circuit_of s.program id)
  of_fun (Fun.circuit params result body) = every body

  mutual
    unfolding OfOperand

    of_operand : (o : Operand) → OfOperand s P o
    of_operand (Operand.expr e) = every e
    of_operand (Operand.value_to_int o) = of_operand o
    of_operand (Operand.leaf_hash o) = of_operand o
    of_operand (Operand.aligned_concat os) = every_operand os
    of_operand (Operand.list os) = every_operand os
    of_operand (Operand.state_value so) = of_state so
    of_operand _ = tt

    of_state : (so : StateOperand) → OfState s P so
    of_state (StateOperand.cell o) = of_operand o
    of_state (StateOperand.of_adt o ty) = of_operand o
    of_state (StateOperand.array os) = every_operand os
    of_state (StateOperand.map_of es) = every_entry es
    of_state _ = tt

    every_operand : (os : Operands) → AllOperands s P os
    every_operand Operands.no_operands = tt
    every_operand (Operands.more_operands o os) = (of_operand o, every_operand os)

    every_entry : (es : Entries) → AllEntries s P es
    every_entry Entries.no_entries = tt
    every_entry (Entries.more_entries k o es) = (of_operand k, of_operand o, every_entry es)

  every_op_arg : (args : OpArgs) → AllOpArgs s P args
  unfolding AllOpArgs
  every_op_arg OpArgs.no_op_args = tt
  every_op_arg (OpArgs.more_op_args name o args) = (of_operand o, every_op_arg args)

  every_instruction : (is : Instructions) → AllInstructions s P is
  unfolding AllInstructions AllOpArgs
  every_instruction Instructions.no_instructions = tt
  every_instruction (Instructions.more_instructions op args is) =
      (every_op_arg args, every_instruction is)

  -- A property of every expression is one of those that a step evaluates.
  pub every-Within : (e : Expr) → Within s P e
  unfolding Within
  every-Within (Expr.cond c t e) = (every c, every t, every e)
  every-Within (Expr.elt_ref e elt index) = every e
  every-Within (Expr.tuple args) = every_part args
  every-Within (Expr.vector_lit args) = every_part args
  every-Within (Expr.tuple_ref e index) = every e
  every-Within (Expr.tuple_slice ty e index len) = every e
  every-Within (Expr.vector_ref ty e index) = (every e, every index)
  every-Within (Expr.vector_slice ty e index len) = (every e, every index)
  every-Within (Expr.bytes_ref ty e index) = (every e, every index)
  every-Within (Expr.bytes_slice ty e index len) = (every e, every index)
  every-Within (Expr.add ty l r) = (every l, every r)
  every-Within (Expr.sub ty l r) = (every l, every r)
  every-Within (Expr.mul ty l r) = (every l, every r)
  every-Within (Expr.lt n l r) = (every l, every r)
  every-Within (Expr.le n l r) = (every l, every r)
  every-Within (Expr.gt n l r) = (every l, every r)
  every-Within (Expr.ge n l r) = (every l, every r)
  every-Within (Expr.eq ty l r) = (every l, every r)
  every-Within (Expr.neq ty l r) = (every l, every r)
  every-Within (Expr.map len fun args) = (every_arg args, of_fun fun)
  every-Within (Expr.fold len fun init ty args) = (every init, every_arg args, of_fun fun)
  every-Within (Expr.call name args) = (every_expr args, of_callee (callee s.program name))
  every-Within (Expr.new ty es) = every_expr es
  every-Within (Expr.seq es) = every_expr es
  every-Within (Expr.let_star bs body) = (every_binding bs, every body)
  every-Within (Expr.assert e message) = every e
  every-Within (Expr.field_to_bytes len f e) = every e
  every-Within (Expr.cast_from_bytes ty len e) = every e
  every-Within (Expr.vector_to_bytes len e) = every e
  every-Within (Expr.bytes_to_vector len e) = every e
  every-Within (Expr.cast_from_enum ty from e) = every e
  every-Within (Expr.cast_to_enum ty from e) = every e
  every-Within (Expr.safe_cast ty from e) = every e
  every-Within (Expr.cast_to_field f from e) = every e
  every-Within (Expr.cast_from_field maxval f e) = every e
  every-Within (Expr.downcast_unsigned from to e) = every e
  every-Within (Expr.emit version tag len payload is) = every_instruction is
  every-Within (Expr.public_ledger field class path op result is args) = every_instruction is
  every-Within (Expr.return e) = every e
  every-Within _ = tt
