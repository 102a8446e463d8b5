-- ===== src/Interpreter/Infer.antt =====
-- crates/compact/interpreter/src/lib.rs: the static type of an expression, where it is known.
use midnight_rs.Base.{
  ℕ, zero, suc, ◌+◌, not, retain, Option, none, some, List, [], ◌∷◌, pos, ◌==◌, if◌then◌else◌,
  length,
}
use midnight_rs.Ir.Text.{eq_text}
use midnight_rs.Ir.Model.{FieldType, Ty, Tys, Fields, Circuits, resolved, unit}
use midnight_rs.Ir.Expr.{Literal, Expr, Exprs, TupleArgs, Fun}
use midnight_rs.Runtime.Layout.{◌>>?◌, to_usize, types_length, element_type_at}
use midnight_rs.Interpreter.Program.{Program, result_type_of}

-- A `HashMap` keyed by identifiers: a name at most once.
abbrev pub Env : Type 0 → Type 0
Env A = List (List ℕ × A)

abbrev pub lookup : {A : Type 0} → List ℕ → Env A → Option A
lookup id [] = none
lookup id ((n, a) ∷ env) = if eq_text n id then some a else lookup id env

-- `HashMap::insert`, which takes out what the name was bound to
abbrev pub insert : {A : Type 0} → List ℕ → A → Env A → Env A
insert id a env = (id, a) ∷ retain (λ e. not (eq_text e.0 id)) env

abbrev pub byte_type : Ty
byte_type = Ty.unsigned 255

abbrev pub native_field : Ty
native_field = Ty.field FieldType.native

abbrev pub append_types : Tys → Tys → Tys
append_types Tys.no_types ts = ts
append_types (Tys.more_types t us) ts = Tys.more_types t (append_types us ts)

abbrev pub repeat_type : ℕ → Ty → Tys
repeat_type zero t = Tys.no_types
repeat_type (suc n) t = Tys.more_types t (repeat_type n t)

-- The element types that a spread of a known type contributes.
abbrev pub spread_types : ℕ → Ty → Option Tys
spread_types len (Ty.tuple ts) = if types_length ts == len then some ts else none
spread_types len (Ty.vector n t) =
    if n == len then (to_usize n >>? λ k. some (repeat_type k t)) else none
spread_types len _ = none

abbrev pub take_types : ℕ → Tys → Option Tys
take_types zero ts = some Tys.no_types
take_types (suc n) Tys.no_types = none
take_types (suc n) (Tys.more_types t ts) = take_types n ts >>? λ us. some (Tys.more_types t us)

-- `types.get(start..start + len)`
abbrev pub types_from : Tys → ℕ → ℕ → Option Tys
types_from ts zero len = take_types len ts
types_from Tys.no_types (suc start) len = none
types_from (Tys.more_types t ts) (suc start) len = types_from ts start len

abbrev pub slice_result_type : Ty → Option ℕ → ℕ → Option Ty
slice_result_type operand start len = elim (resolved operand) [
  | Ty.vector n t ↦ some (Ty.vector len t)
  | Ty.tuple ts ↦ start >>? λ s. to_usize len >>? λ l.
      to_usize (s + l) >>? λ end. types_from ts s l >>? λ us. some (Ty.tuple us)
  | _ ↦ none
]

abbrev pub const_index : Expr → Option ℕ
const_index (Expr.quote (Literal.int (pos n))) = to_usize n
const_index _ = none

abbrev pub field_type_of : Fields → List ℕ → Option Ty
field_type_of Fields.no_fields name = none
field_type_of (Fields.more_fields n t fs) name =
    if eq_text n name then some t else field_type_of fs name

abbrev field_of_struct : Ty → List ℕ → Option Ty
field_of_struct (Ty.struct name fs) elt = field_type_of fs elt
field_of_struct _ elt = none

abbrev circuit_result : Circuits → List ℕ → Option Ty
circuit_result Circuits.no_circuits name = none
circuit_result (Circuits.more_circuits n pure args result cs) name =
    if eq_text n name then some result else circuit_result cs name

abbrev contract_result : Ty → List ℕ → Option Ty
contract_result (Ty.contract name cs) circuit = circuit_result cs circuit
contract_result _ circuit = none

abbrev or_else : Option Ty → Option Ty → Option Ty
or_else (some t) other = some t
or_else none other = other

module _ (program : Program) (types : Env Ty) where
  abbrev fun_result : Fun → Option Ty
  fun_result (Fun.ref id) = result_type_of program id
  fun_result (Fun.circuit args result body) = some result

  unfoldable mutual
    pub infer_type_of_expr : Expr → Option Ty
    infer_type_of_expr (Expr.var_ref id) = lookup id types
    infer_type_of_expr (Expr.quote (Literal.bool b)) = some Ty.boolean
    infer_type_of_expr (Expr.quote (Literal.int n)) = some native_field
    infer_type_of_expr (Expr.quote (Literal.bytes bs)) = some (Ty.bytes (length bs))
    infer_type_of_expr (Expr.call name args) = result_type_of program name
    infer_type_of_expr (Expr.public_ledger field cls path op result is args) = some result
    infer_type_of_expr (Expr.new ty es) = some ty
    infer_type_of_expr (Expr.default ty) = some ty
    infer_type_of_expr (Expr.eq ty l r) = some Ty.boolean
    infer_type_of_expr (Expr.neq ty l r) = some Ty.boolean
    infer_type_of_expr (Expr.lt n l r) = some Ty.boolean
    infer_type_of_expr (Expr.le n l r) = some Ty.boolean
    infer_type_of_expr (Expr.gt n l r) = some Ty.boolean
    infer_type_of_expr (Expr.ge n l r) = some Ty.boolean
    infer_type_of_expr (Expr.add ty l r) = some ty
    infer_type_of_expr (Expr.sub ty l r) = some ty
    infer_type_of_expr (Expr.mul ty l r) = some ty
    infer_type_of_expr (Expr.cond c t e) = infer_type_of_expr t
    infer_type_of_expr (Expr.let_star bs body) = infer_type_of_expr body
    infer_type_of_expr (Expr.seq es) = infer_last es
    infer_type_of_expr (Expr.return e) = infer_type_of_expr e
    infer_type_of_expr (Expr.tuple args) = infer_parts args >>? λ ts. some (Ty.tuple ts)
    infer_type_of_expr (Expr.vector_lit args) = infer_parts args >>? λ ts. some (Ty.tuple ts)
    infer_type_of_expr (Expr.tuple_ref e index) =
        infer_type_of_expr e >>? λ operand. element_type_at operand (to_usize index)
    infer_type_of_expr (Expr.vector_ref ty e index) =
        or_else (element_type_at ty (const_index index))
          (infer_type_of_expr e >>? λ operand. element_type_at operand (const_index index))
    infer_type_of_expr (Expr.elt_ref e elt index) =
        infer_type_of_expr e >>? λ receiver. field_of_struct (resolved receiver) elt
    infer_type_of_expr (Expr.assert e message) = some unit
    infer_type_of_expr (Expr.emit version tag len payload is) = some unit
    infer_type_of_expr (Expr.field_to_bytes len f e) = some (Ty.bytes len)
    infer_type_of_expr (Expr.vector_to_bytes len e) = some (Ty.bytes len)
    infer_type_of_expr (Expr.bytes_to_vector len e) = some (Ty.vector len byte_type)
    infer_type_of_expr (Expr.cast_from_bytes ty len e) = some ty
    infer_type_of_expr (Expr.cast_from_enum ty from e) = some ty
    infer_type_of_expr (Expr.cast_to_enum ty from e) = some ty
    infer_type_of_expr (Expr.safe_cast ty from e) = some ty
    infer_type_of_expr (Expr.cast_to_field f from e) = some native_field
    infer_type_of_expr (Expr.cast_from_field maxval f e) = some (Ty.unsigned maxval)
    infer_type_of_expr (Expr.downcast_unsigned from to e) = some (Ty.unsigned to)
    infer_type_of_expr (Expr.enum_ref ty elt) = some ty
    infer_type_of_expr (Expr.tuple_slice ty e index len) = slice_result_type ty (to_usize index) len
    infer_type_of_expr (Expr.vector_slice ty e index len) =
        slice_result_type ty (const_index index) len
    infer_type_of_expr (Expr.bytes_slice ty e index len) = some (Ty.bytes len)
    infer_type_of_expr (Expr.bytes_ref ty e index) = some byte_type
    infer_type_of_expr (Expr.fold len fun init ty args) = infer_type_of_expr init
    infer_type_of_expr (Expr.map len fun args) =
        fun_result fun >>? λ element. some (Ty.vector len element)
    infer_type_of_expr (Expr.contract_call circuit receiver ty args) =
        contract_result (resolved ty) circuit

    infer_last : Exprs → Option Ty
    infer_last Exprs.no_exprs = none
    infer_last (Exprs.more_exprs e Exprs.no_exprs) = infer_type_of_expr e
    infer_last (Exprs.more_exprs e (Exprs.more_exprs e' es)) = infer_last (Exprs.more_exprs e' es)

    infer_parts : TupleArgs → Option Tys
    infer_parts TupleArgs.no_parts = some Tys.no_types
    infer_parts (TupleArgs.single e args) =
        infer_type_of_expr e >>? λ t. infer_parts args >>? λ ts. some (Tys.more_types t ts)
    infer_parts (TupleArgs.spread len e args) = infer_type_of_expr e >>? λ t.
        spread_types len t >>? λ us. infer_parts args >>? λ ts. some (append_types us ts)
