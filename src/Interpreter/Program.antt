-- ===== src/Interpreter/Program.antt =====
-- crates/compact/interpreter/src/lib.rs: the declarations of a program, and what a call's name refers to.
use midnight_rs.Base.{ℕ, Option, none, some, List, [], ◌∷◌, map, if◌then◌else◌}
use midnight_rs.Ir.Text.{bytes_of, eq_text}
use midnight_rs.Ir.Model.{Ty}
use midnight_rs.Ir.OpName.{ident_name}
use midnight_rs.Ir.Atoms.{strip_prefix}
use midnight_rs.Ir.Expr.{Circuit, Native, Witness}

-- The tables, in the order in which they are collected: of two entries with one key the later stays.
pub record Program : Type 0 where
  pub circuits : List Circuit
  pub witnesses : List Witness
  pub natives : List Native

abbrev find_last : {A : Type 0} → (A → List ℕ) → List ℕ → List A → Option A
find_last key k [] = none
find_last key k (x ∷ xs) = elim (find_last key k xs) [
  | some y ↦ some y
  | none ↦ if eq_text (key x) k then some x else none
]

-- `Program::circuit`
abbrev pub circuit_of : Program → List ℕ → Option Circuit
circuit_of p id = find_last (λ c. c.name) id p.circuits

pub data Decl : Type 0 where
  circuit : Circuit → Decl
  native : Native → Decl
  witness : Witness → Decl

abbrev pub declaration : Program → List ℕ → Option Decl
declaration p id = elim (circuit_of p id) [
  | some c ↦ some (Decl.circuit c)
  | none ↦ elim (find_last (λ n. n.name) id p.natives) [
    | some n ↦ some (Decl.native n)
    | none ↦ elim (find_last (λ w. ident_name w.name) (ident_name id) p.witnesses) [
      | some w ↦ some (Decl.witness w)
      | none ↦ none
    ]
  ]
]

pub data Callee : Type 0 where
  circuit : Circuit → Callee
  witness pure : Callee

abbrev callee_of : Option Decl → Callee
callee_of none = Callee.pure
callee_of (some (Decl.circuit c)) = Callee.circuit c
callee_of (some (Decl.native n)) =
    if eq_text n.class (bytes_of "witness") then Callee.witness else Callee.pure
callee_of (some (Decl.witness w)) = Callee.witness

unfoldable pub callee : Program → List ℕ → Callee
callee p id = callee_of (declaration p id)

abbrev entry_symbol : List ℕ → List ℕ
entry_symbol entry = elim (strip_prefix (bytes_of "__compactRuntime.") entry) [
  | some symbol ↦ symbol
  | none ↦ entry
]

abbrev pub runtime_name : Program → List ℕ → List ℕ
runtime_name p id = elim (declaration p id) [
  | some (Decl.native n) ↦ entry_symbol n.entry
  | _ ↦ ident_name id
]

abbrev pub argument_types : Program → List ℕ → List Ty
argument_types p id = elim (declaration p id) [
  | some (Decl.native n) ↦ map (λ a. a.ty) n.arguments
  | _ ↦ []
]

abbrev result_of : Decl → Ty
result_of (Decl.circuit c) = c.result_type
result_of (Decl.native n) = n.result_type
result_of (Decl.witness w) = w.result_type

abbrev pub result_type_of : Program → List ℕ → Option Ty
result_type_of p id = elim (declaration p id) [ some d ↦ some (result_of d) | none ↦ none ]
