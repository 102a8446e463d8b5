-- ===== src/Ir/Expr.antt =====
-- crates/compact/analyzed-ir/src/model.rs: the expressions of the analyzed IR, the operands of VM
-- instructions, and the declarations that a call names. A text is its bytes.
use midnight_rs.Base.{ℕ, ℤ, Bool, List, Option, none, some, if◌then◌else◌}
use midnight_rs.Ir.Text.{eq_text}
use midnight_rs.Ir.Model.{FieldType, Ty}
use midnight_rs.Ir.OpName.{OpName}

pub data Literal : Type 0 where
  int : ℤ → Literal
  bool : Bool → Literal
  bytes : List ℕ → Literal

pub record Argument : Type 0 where
  pub name : List ℕ
  pub ty : Ty

pub data OpClass : Type 0 where
  plain : List ℕ → OpClass
  coin_check : List ℕ → ℕ → ℕ → OpClass

mutual
  -- `maxval`, `len` and `index` are numbers; a field that the source names by its type has its place
  -- in the source's order.
  pub data Expr : Type 0 where
    quote : Literal → Expr
    var_ref : List ℕ → Expr
    default : Ty → Expr
    cond : Expr → Expr → Expr → Expr
    elt_ref : Expr → List ℕ → ℕ → Expr
    enum_ref : Ty → List ℕ → Expr
    tuple vector_lit : TupleArgs → Expr
    tuple_ref : Expr → ℕ → Expr
    tuple_slice : Ty → Expr → ℕ → ℕ → Expr
    vector_ref : Ty → Expr → Expr → Expr
    vector_slice : Ty → Expr → Expr → ℕ → Expr
    bytes_ref : Ty → Expr → Expr → Expr
    bytes_slice : Ty → Expr → Expr → ℕ → Expr
    add sub mul : Ty → Expr → Expr → Expr
    lt le gt ge : ℕ → Expr → Expr → Expr
    eq neq : Ty → Expr → Expr → Expr
    map : ℕ → Fun → MapArgs → Expr
    fold : ℕ → Fun → Expr → Ty → MapArgs → Expr
    call : List ℕ → Exprs → Expr
    new : Ty → Exprs → Expr
    seq : Exprs → Expr
    let_star : Bindings → Expr → Expr
    assert : Expr → List ℕ → Expr
    field_to_bytes : ℕ → FieldType → Expr → Expr
    cast_from_bytes : Ty → ℕ → Expr → Expr
    vector_to_bytes bytes_to_vector : ℕ → Expr → Expr
    cast_from_enum cast_to_enum safe_cast : Ty → Ty → Expr → Expr
    cast_to_field : FieldType → Ty → Expr → Expr
    cast_from_field : ℕ → FieldType → Expr → Expr
    downcast_unsigned : ℕ → ℕ → Expr → Expr
    contract_call : List ℕ → Expr → Ty → Exprs → Expr
    emit : ℕ → ℕ → ℕ → Expr → Instructions → Expr
    public_ledger : List ℕ → OpClass → PathElements → List ℕ → Ty → Instructions → Exprs → Expr
    return : Expr → Expr

  -- `Vec<Expr>`
  pub data Exprs : Type 0 where
    no_exprs : Exprs
    more_exprs : Expr → Exprs → Exprs

  -- `Vec<TupleArg>`
  pub data TupleArgs : Type 0 where
    no_parts : TupleArgs
    single : Expr → TupleArgs → TupleArgs
    spread : ℕ → Expr → TupleArgs → TupleArgs

  -- `Vec<MapArg>`: expression, type and element type of each
  pub data MapArgs : Type 0 where
    no_args : MapArgs
    more_args : Expr → Ty → Ty → MapArgs → MapArgs

  pub data Fun : Type 0 where
    ref : List ℕ → Fun
    circuit : List Argument → Ty → Expr → Fun

  -- `Vec<PathElement>`
  pub data PathElements : Type 0 where
    no_path : PathElements
    index : ℕ → PathElements → PathElements
    computed : Ty → Expr → PathElements → PathElements

  -- `Vec<(Argument, Expr)>`
  pub data Bindings : Type 0 where
    no_bindings : Bindings
    bind : Argument → Expr → Bindings → Bindings

  pub data Operand : Type 0 where
    int : ℤ → Operand
    bool : Bool → Operand
    str : List ℕ → Operand
    align : ℕ → ℕ → Operand
    stack void : Operand
    value_to_int : Operand → Operand
    null max_sizeof : Ty → Operand
    plus : Operand → Operand → Operand
    leaf_hash : Operand → Operand
    coin_commit : Operand → Operand → Operand
    aligned_concat : Operands → Operand
    state_value : StateOperand → Operand
    expr : Expr → Operand
    list : Operands → Operand

  -- `Vec<Operand>`
  pub data Operands : Type 0 where
    no_operands : Operands
    more_operands : Operand → Operands → Operands

  -- `Vec<(Operand, Operand)>`
  pub data Entries : Type 0 where
    no_entries : Entries
    more_entries : Operand → Operand → Entries → Entries

  -- `StateValue`
  pub data StateOperand : Type 0 where
    null_state : StateOperand
    cell : Operand → StateOperand
    of_adt : Operand → Ty → StateOperand
    array : Operands → StateOperand
    map_of : Entries → StateOperand
    merkle_tree : ℕ → Entries → StateOperand

  -- `Vec<(String, Operand)>`
  pub data OpArgs : Type 0 where
    no_op_args : OpArgs
    more_op_args : List ℕ → Operand → OpArgs → OpArgs

  -- `Vec<Instruction>`: operation and arguments of each
  pub data Instructions : Type 0 where
    no_instructions : Instructions
    more_instructions : OpName → OpArgs → Instructions → Instructions

pub record Circuit : Type 0 where
  pub name : List ℕ
  pub exported : Bool
  pub pure : Bool
  pub proof : Bool
  pub arguments : List Argument
  pub result_type : Ty
  pub body : Expr

pub record Native : Type 0 where
  pub name : List ℕ
  pub entry : List ℕ
  pub class : List ℕ
  pub type_arguments : List Ty
  pub arguments : List Argument
  pub result_type : Ty

pub record Witness : Type 0 where
  pub name : List ℕ
  pub arguments : List Argument
  pub result_type : Ty

-- `Instruction::arg`
abbrev pub arg_of : OpArgs → List ℕ → Option Operand
arg_of OpArgs.no_op_args name = none
arg_of (OpArgs.more_op_args n operand args) name =
    if eq_text n name then some operand else arg_of args name
