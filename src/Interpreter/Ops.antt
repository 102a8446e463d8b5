-- ===== src/Interpreter/Ops.antt =====
-- crates/compact/interpreter/src/lib.rs: VM instructions as the operations that the VM runs. The
-- expressions in their operands are evaluated in the order of the instructions.
use midnight_rs.Base.{
  ℕ, ℤ, ◌+◌, ◌-◌, ◌*◌, ◌^◌, Bool, true, false, Option, none, some, List, [], ◌∷◌, pos, negsuc, ltb,
  if◌then◌else◌, Result, ok_or,
}
use midnight_rs.Ir.Text.{bytes_of, eq_text}
use midnight_rs.Ir.Model.{Ty}
use midnight_rs.Ir.OpName.{OpName}
use midnight_rs.Ir.Expr.{
  Expr, Operand, Operands, Entries, StateOperand, OpArgs, Instructions, arg_of,
}
use midnight_rs.Runtime.Value.{
  AlignedValue, Value, InterpreterError, Try, as_u32, try_to_aligned_value,
}
use midnight_rs.Runtime.Encode.{encode_typed, default_value}
use midnight_rs.Interpreter.Monad.{
  StateValue, StateValues, StateEntries, Key, Op, Setting, Run, pure, ◌>>=◌, try, refuse, infer,
  run_ops,
}
use midnight_rs.Base.Results.{◌>>=◌ as then_try}

abbrev flag : OpArgs → List ℕ → Bool
flag args name = elim (arg_of args name) [ some (Operand.bool b) ↦ b | _ ↦ false ]

abbrev pub in_range : ℕ → ℤ → Try ℕ
in_range bound (pos n) = if ltb n bound then Result.ok n else Result.err InterpreterError.type_error
in_range bound (negsuc n) = Result.err InterpreterError.type_error

abbrev small : ℕ → ℕ → Try ℕ
small bound n = if ltb n bound then Result.ok n else Result.err InterpreterError.type_error

-- `reduce_operand` gives `VmArg::Null` or `VmArg::Stack`.
abbrev pub is_null : Operand → Bool
is_null Operand.stack = true
is_null Operand.void = true
is_null (Operand.value_to_int o) = is_null o
is_null (Operand.state_value (StateOperand.cell o)) = is_null o
is_null (Operand.state_value (StateOperand.of_adt o ty)) = is_null o
is_null (Operand.state_value StateOperand.null_state) = true
is_null _ = false

-- A container's default, pushed as the default of an ADT.
abbrev pub adt_default : Operand → Ty → Option (List ℕ)
adt_default (Operand.expr (Expr.default t)) (Ty.adt name args) = some name
adt_default _ _ = none

abbrev max_for_bytes : ℕ → ℕ
max_for_bytes n = 2 ^ (8 * n) - 1

module _ (s : Setting) (ev : Expr → Run Value) where
  abbrev max_sizeof : Ty → Try ℕ
  max_sizeof ty =
      then_try (default_value s.fab ty) λ v.
        then_try (encode_typed s.fab ty v) λ av. small (2 ^ 64) (s.max_aligned_size av.alignment)

  abbrev count_operand : Operand → Try ℕ
  count_operand (Operand.int n) = in_range (2 ^ 64) n
  count_operand (Operand.max_sizeof ty) = max_sizeof ty
  count_operand (Operand.plus l r) =
      then_try (count_operand l) λ a. then_try (count_operand r) λ b. small (2 ^ 64) (a + b)
  count_operand _ = Result.err InterpreterError.type_error

  abbrev u64_arg : OpArgs → List ℕ → Try ℕ
  u64_arg args name = then_try (ok_or (arg_of args name) InterpreterError.type_error) count_operand

  abbrev u8_arg : OpArgs → List ℕ → Try ℕ
  u8_arg args name = then_try (u64_arg args name) (small 256)

  abbrev u32_arg : OpArgs → List ℕ → Try ℕ
  u32_arg args name = then_try (u64_arg args name) (small (2 ^ 32))

  -- `unwrap_or(0)`
  abbrev or_zero : Try ℕ → ℕ
  or_zero (Result.ok n) = n
  or_zero (Result.err e) = 0

  -- The encoding of an expression's value, at its type where that is known.
  abbrev encode_inferred : Value → Option Ty → Try AlignedValue
  encode_inferred (Value.integer n) (some t) = encode_typed s.fab t (Value.integer n)
  encode_inferred (Value.struct ms) (some t) = encode_typed s.fab t (Value.struct ms)
  encode_inferred (Value.tuple vs) (some t) = encode_typed s.fab t (Value.tuple vs)
  encode_inferred (Value.tuple vs) none = Result.err InterpreterError.unsupported
  encode_inferred v t = try_to_aligned_value s.fab v

  abbrev literal_key : ℕ → ℕ → Try AlignedValue
  literal_key value n =
      then_try (small (2 ^ 128) value)
        λ k. encode_typed s.fab (Ty.unsigned (max_for_bytes n)) (Value.integer k)

  abbrev null_of : Ty → Try AlignedValue
  null_of ty = then_try (default_value s.fab ty) (encode_typed s.fab ty)

  abbrev u64_aligned : ℤ → Try AlignedValue
  u64_aligned n = then_try (in_range (2 ^ 64) n) λ k. Result.ok (s.fab.of_u64 k)

  unfoldable mutual
    unfolding encode_typed default_value try_to_aligned_value

    pub operand_aligned : Operand → Run AlignedValue
    operand_aligned (Operand.expr e) = infer s e >>= λ t. ev e >>= λ v. try (encode_inferred v t)
    operand_aligned (Operand.align value n) = try (literal_key value n)
    operand_aligned (Operand.int n) = try (u64_aligned n)
    operand_aligned (Operand.bool b) = pure (s.fab.of_bool b)
    operand_aligned (Operand.null ty) = try (null_of ty)
    operand_aligned (Operand.leaf_hash o) = operand_aligned o >>= λ av. pure (s.leaf_hash av)
    operand_aligned (Operand.aligned_concat os) =
        operands_aligned os >>= λ parts. pure (s.fab.concat parts)
    operand_aligned (Operand.value_to_int o) = operand_aligned o
    operand_aligned (Operand.state_value so) = state_aligned so
    operand_aligned _ = refuse InterpreterError.unsupported

    pub state_aligned : StateOperand → Run AlignedValue
    state_aligned (StateOperand.cell o) = operand_aligned o
    state_aligned (StateOperand.of_adt o ty) = operand_aligned o
    state_aligned _ = refuse InterpreterError.unsupported

    pub operands_aligned : Operands → Run (List AlignedValue)
    operands_aligned Operands.no_operands = pure []
    operands_aligned (Operands.more_operands o os) =
        operand_aligned o >>= λ av. operands_aligned os >>= λ parts. pure (av ∷ parts)

  abbrev pub scalar_value : Operand → Run StateValue
  scalar_value o =
      if is_null o
      then pure StateValue.null
      else (operand_aligned o >>= λ av. pure (StateValue.cell av))

  abbrev pub has_entries : Entries → Bool
  has_entries Entries.no_entries = false
  has_entries (Entries.more_entries k v es) = true

  abbrev pub pushed_default : List ℕ → Run StateValue
  pushed_default name =
      if eq_text name (bytes_of "Map")
      then pure (StateValue.map StateEntries.no_state_entries)
      else refuse InterpreterError.unsupported

  abbrev pub default_or : Option (List ℕ) → Operand → Run StateValue
  default_or (some name) o = pushed_default name
  default_or none o = scalar_value o

  unfoldable mutual
    unfolding operand_aligned

    pub push_value : Operand → Run StateValue
    push_value (Operand.state_value so) = push_state so
    push_value o = scalar_value o

    pub push_state : StateOperand → Run StateValue
    push_state (StateOperand.array os) = push_all os >>= λ vs. pure (StateValue.array vs)
    push_state (StateOperand.map_of es) = push_entries es >>= λ vs. pure (StateValue.map vs)
    push_state (StateOperand.merkle_tree depth es) =
        if has_entries es
        then refuse InterpreterError.unsupported
        else (try (small 256 depth) >>= λ height. pure (StateValue.merkle_tree height))
    push_state (StateOperand.of_adt o ty) =
        default_or (adt_default o ty) (Operand.state_value (StateOperand.of_adt o ty))
    push_state so = scalar_value (Operand.state_value so)

    pub push_all : Operands → Run StateValues
    push_all Operands.no_operands = pure StateValues.no_states
    push_all (Operands.more_operands o os) =
        push_value o >>= λ v. push_all os >>= λ vs. pure (StateValues.more_states v vs)

    pub push_entries : Entries → Run StateEntries
    push_entries Entries.no_entries = pure StateEntries.no_state_entries
    push_entries (Entries.more_entries k o es) = operand_aligned k >>= λ key. push_value o >>= λ v.
        push_entries es >>= λ vs. pure (StateEntries.more_state_entries key v vs)

  abbrev pub path_key : Operand → Run Key
  path_key Operand.stack = pure Key.stack
  path_key (Operand.align value n) =
      operand_aligned (Operand.align value n) >>= λ av. pure (Key.value av)
  path_key (Operand.expr e) = operand_aligned (Operand.expr e) >>= λ av. pure (Key.value av)
  path_key _ = refuse InterpreterError.unsupported

  unfoldable pub path_keys : Operands → Run (List Key)
  unfolding operand_aligned
  path_keys Operands.no_operands = pure []
  path_keys (Operands.more_operands o os) =
      path_key o >>= λ key. path_keys os >>= λ keys. pure (key ∷ keys)

  -- The immediate of `addi` and `subi`.
  unfoldable pub resolve_immediate : Operand → Run ℕ
  resolve_immediate (Operand.int n) = try (in_range (2 ^ 32) n)
  resolve_immediate (Operand.expr e) =
      ev e >>= λ v. try (ok_or (as_u32 v) InterpreterError.type_error)
  resolve_immediate (Operand.value_to_int o) = resolve_immediate o
  resolve_immediate (Operand.state_value (StateOperand.cell o)) = resolve_immediate o
  resolve_immediate (Operand.state_value (StateOperand.of_adt o ty)) = resolve_immediate o
  resolve_immediate _ = refuse InterpreterError.type_error

  -- An operand that must be there, given to a piece of the run.
  abbrev pub on_operand : {A : Type 0} → Option Operand → (Operand → Run A) → Run A
  on_operand (some o) k = k o
  on_operand none k = refuse InterpreterError.type_error

  abbrev pub with_operand : {A : Type 0} → OpArgs → List ℕ → (Operand → Run A) → Run A
  with_operand args name k = on_operand (arg_of args name) k

  abbrev pub with_path : Option Operand → (Operands → Run Op) → Run Op
  with_path (some (Operand.list os)) k = k os
  with_path _ k = refuse InterpreterError.unsupported

  abbrev pub counted : (ℕ → Op) → Try ℕ → Run Op
  counted op n = try n >>= λ k. pure (op k)

  unfoldable pub idx_of : OpArgs → Operands → Run Op
  unfolding path_keys
  idx_of args os = path_keys os >>= λ keys.
      pure (Op.idx (flag args (bytes_of "cached")) (flag args (bytes_of "pushPath")) keys)

  unfoldable pub build_op : OpName → OpArgs → Run Op
  unfolding idx_of push_value resolve_immediate
  build_op OpName.idx args = with_path (arg_of args (bytes_of "path")) (idx_of args)
  build_op OpName.push args = with_operand args (bytes_of "value") push_value >>= λ v.
      pure (Op.push (flag args (bytes_of "storage")) v)
  build_op OpName.addi args =
      with_operand args (bytes_of "immediate") resolve_immediate >>= λ n. pure (Op.addi n)
  build_op OpName.subi args =
      with_operand args (bytes_of "immediate") resolve_immediate >>= λ n. pure (Op.subi n)
  build_op OpName.ins args =
      counted (Op.ins (flag args (bytes_of "cached"))) (u8_arg args (bytes_of "n"))
  build_op OpName.dup args = pure (Op.dup (or_zero (u8_arg args (bytes_of "n"))))
  build_op OpName.swap args = pure (Op.swap (or_zero (u8_arg args (bytes_of "n"))))
  build_op OpName.popeq args = pure (Op.popeq (flag args (bytes_of "cached")))
  build_op OpName.rem args = pure (Op.rem (flag args (bytes_of "cached")))
  build_op OpName.noop args = counted Op.noop (u32_arg args (bytes_of "n"))
  build_op OpName.branch args = counted Op.branch (u32_arg args (bytes_of "skip"))
  build_op OpName.jmp args = counted Op.jmp (u32_arg args (bytes_of "skip"))
  build_op OpName.concat args =
      counted (Op.concat (flag args (bytes_of "cached"))) (u32_arg args (bytes_of "n"))
  build_op OpName.member args = pure Op.member
  build_op OpName.root args = pure Op.root
  build_op OpName.eq args = pure Op.eq
  build_op OpName.lt args = pure Op.lt
  build_op OpName.ckpt args = pure Op.ckpt
  build_op OpName.neg args = pure Op.neg
  build_op OpName.add args = pure Op.add
  build_op OpName.pop args = pure Op.pop
  build_op OpName.size args = pure Op.size
  build_op OpName.type args = pure Op.type
  build_op OpName.log args = pure Op.log
  build_op _ args = refuse InterpreterError.unsupported

  unfoldable pub build_ops : Instructions → Run (List Op)
  unfolding build_op
  build_ops Instructions.no_instructions = pure []
  build_ops (Instructions.more_instructions op args is) =
      build_op op args >>= λ o. build_ops is >>= λ ops. pure (o ∷ ops)

  unfoldable pub exec_ledger_query : Instructions → Run Value
  unfolding build_ops
  exec_ledger_query is = build_ops is >>= λ ops. run_ops s ops
