-- ===== src/Ir/OpName.antt =====
-- crates/compact/analyzed-ir/src/model.rs: the names of the VM's instructions and of identifiers.
use midnight_rs.Base.{
  and-true, ℕ, ◌≡◌, refl, sym, ◌∙◌, Bool, true, false, Option, none, some, List, [], ◌∷◌, ◌++◌,
  ◌==◌, if◌then◌else◌, all, All, arith, Bool-cases, inl, inr,
}
use midnight_rs.Ir.Atoms.{is_digit}
use midnight_rs.Ir.Text.{bytes_of, eq_text, eq_text-eq}

pub data OpName : Type 0 where
  add addi and branch ckpt concat dup eq idx ins jmp log lt member neg new noop or pop popeq push :
      OpName
  rem root size sub subi swap type : OpName
  unknown : List ℕ → OpName

abbrev pub as_str : OpName → List ℕ
as_str OpName.add = bytes_of "add"
as_str OpName.addi = bytes_of "addi"
as_str OpName.and = bytes_of "and"
as_str OpName.branch = bytes_of "branch"
as_str OpName.ckpt = bytes_of "ckpt"
as_str OpName.concat = bytes_of "concat"
as_str OpName.dup = bytes_of "dup"
as_str OpName.eq = bytes_of "eq"
as_str OpName.idx = bytes_of "idx"
as_str OpName.ins = bytes_of "ins"
as_str OpName.jmp = bytes_of "jmp"
as_str OpName.log = bytes_of "log"
as_str OpName.lt = bytes_of "lt"
as_str OpName.member = bytes_of "member"
as_str OpName.neg = bytes_of "neg"
as_str OpName.new = bytes_of "new"
as_str OpName.noop = bytes_of "noop"
as_str OpName.or = bytes_of "or"
as_str OpName.pop = bytes_of "pop"
as_str OpName.popeq = bytes_of "popeq"
as_str OpName.push = bytes_of "push"
as_str OpName.rem = bytes_of "rem"
as_str OpName.root = bytes_of "root"
as_str OpName.size = bytes_of "size"
as_str OpName.sub = bytes_of "sub"
as_str OpName.subi = bytes_of "subi"
as_str OpName.swap = bytes_of "swap"
as_str OpName.type = bytes_of "type"
as_str (OpName.unknown name) = name

-- The table of the macro `op_names!`.
abbrev pub op_names : List (List ℕ × OpName)
op_names =
    (bytes_of "add", OpName.add)
    ∷ (bytes_of "addi", OpName.addi)
    ∷ (bytes_of "and", OpName.and)
    ∷ (bytes_of "branch", OpName.branch)
    ∷ (bytes_of "ckpt", OpName.ckpt)
    ∷ (bytes_of "concat", OpName.concat)
    ∷ (bytes_of "dup", OpName.dup)
    ∷ (bytes_of "eq", OpName.eq)
    ∷ (bytes_of "idx", OpName.idx)
    ∷ (bytes_of "ins", OpName.ins)
    ∷ (bytes_of "jmp", OpName.jmp)
    ∷ (bytes_of "log", OpName.log)
    ∷ (bytes_of "lt", OpName.lt)
    ∷ (bytes_of "member", OpName.member)
    ∷ (bytes_of "neg", OpName.neg)
    ∷ (bytes_of "new", OpName.new)
    ∷ (bytes_of "noop", OpName.noop)
    ∷ (bytes_of "or", OpName.or)
    ∷ (bytes_of "pop", OpName.pop)
    ∷ (bytes_of "popeq", OpName.popeq)
    ∷ (bytes_of "push", OpName.push)
    ∷ (bytes_of "rem", OpName.rem)
    ∷ (bytes_of "root", OpName.root)
    ∷ (bytes_of "size", OpName.size)
    ∷ (bytes_of "sub", OpName.sub)
    ∷ (bytes_of "subi", OpName.subi)
    ∷ (bytes_of "swap", OpName.swap)
    ∷ (bytes_of "type", OpName.type)
    ∷ []

-- The first arm that matches, or `OpName::Unknown`.
abbrev from_table : List (List ℕ × OpName) → List ℕ → OpName
from_table [] name = OpName.unknown name
from_table ((n, op) ∷ table) name = if eq_text name n then op else from_table table name

-- `From<&str>`
abbrev pub from_name : List ℕ → OpName
from_name name = from_table op_names name

as_str-from_table :
    (table : List (List ℕ × OpName)) (name : List ℕ)
    → All (λ e. as_str e.1 ≡ e.0) table
    → as_str (from_table table name) ≡ name
as_str-from_table [] name h = refl
as_str-from_table ((n, op) ∷ table) name (one, more) = elim (Bool-cases (eq_text name n)) [
  | inl e ↦ rw e (one ∙ sym (eq_text-eq name n e))
  | inr e ↦ rw e (as_str-from_table table name more)
]

op_names_spelled : All (λ e. as_str e.1 ≡ e.0) op_names
op_names_spelled = (
  refl,
  (
    refl,
    (
      refl,
      (
        refl,
        (
          refl,
          (
            refl,
            (
              refl,
              (
                refl,
                (
                  refl,
                  (
                    refl,
                    (
                      refl,
                      (
                        refl,
                        (
                          refl,
                          (
                            refl,
                            (
                              refl,
                              (
                                refl,
                                (
                                  refl,
                                  (
                                    refl,
                                    (
                                      refl,
                                      (
                                        refl,
                                        (
                                          refl,
                                          (
                                            refl,
                                            (refl, (refl, (refl, (refl, (refl, (refl, tt)))))),
                                          ),
                                        ),
                                      ),
                                    ),
                                  ),
                                ),
                              ),
                            ),
                          ),
                        ),
                      ),
                    ),
                  ),
                ),
              ),
            ),
          ),
        ),
      ),
    ),
  ),
)

-- `rfind('.')`: what stands before and behind the last dot.
abbrev rfind_dot : List ℕ → Option (List ℕ × List ℕ)
rfind_dot [] = none
rfind_dot (c ∷ cs) = elim (rfind_dot cs) [
  | some (before, behind) ↦ some (c ∷ before, behind)
  | none ↦ if c == b'.' then some ([], cs) else none
]

abbrev unprefixed : List ℕ → List ℕ
unprefixed [] = []
unprefixed (c ∷ cs) = if c == b'%' then cs else c ∷ cs

abbrev pub ident_name : List ℕ → List ℕ
ident_name ident = elim (rfind_dot (unprefixed ident)) [
  | some (before, behind) ↦ if all is_digit behind then before else unprefixed ident
  | none ↦ unprefixed ident
]

rfind_dot-digits : (s : List ℕ) → all is_digit s ≡ true → rfind_dot s ≡ none
rfind_dot-digits [] h = refl
rfind_dot-digits (c ∷ cs) h =
    let (hc, hs) = and-true (is_digit c) (all is_digit cs) h in
    rw (rfind_dot-digits cs hs, digit_no_dot c hc)
  where
    digit_no_dot : (c : ℕ) → is_digit c ≡ true → (c == b'.') ≡ false
    digit_no_dot c h = ground arith

rfind_dot-append :
    (base digits : List ℕ)
    → all is_digit digits ≡ true
    → rfind_dot (base ++ b'.' ∷ digits) ≡ some (base, digits)
rfind_dot-append [] digits h = rw (rfind_dot-digits digits h)
rfind_dot-append (c ∷ base) digits h = rw (rfind_dot-append base digits h)

-- The source-level name of an identifier that the compiler made from a name and a number is that
-- name, whatever it holds.
pub ident_name_made :
    (name digits : List ℕ)
    → all is_digit digits ≡ true
    → ident_name (b'%' ∷ name ++ b'.' ∷ digits) ≡ name
ident_name_made name digits h = rw (rfind_dot-append name digits h, h)

-- An instruction is printed as it was spelled, whether this build knows its name or not.
pub as_str-from_name : (name : List ℕ) → as_str (from_name name) ≡ name
as_str-from_name name = as_str-from_table op_names name op_names_spelled

abbrev pub is_known : OpName → Bool
is_known (OpName.unknown name) = false
is_known _ = true

-- Every instruction that the VM defines is parsed from its own name.
pub from_name-as_str : (op : OpName) → is_known op ≡ true → from_name (as_str op) ≡ op
from_name-as_str OpName.add h = refl
from_name-as_str OpName.addi h = refl
from_name-as_str OpName.and h = refl
from_name-as_str OpName.branch h = refl
from_name-as_str OpName.ckpt h = refl
from_name-as_str OpName.concat h = refl
from_name-as_str OpName.dup h = refl
from_name-as_str OpName.eq h = refl
from_name-as_str OpName.idx h = refl
from_name-as_str OpName.ins h = refl
from_name-as_str OpName.jmp h = refl
from_name-as_str OpName.log h = refl
from_name-as_str OpName.lt h = refl
from_name-as_str OpName.member h = refl
from_name-as_str OpName.neg h = refl
from_name-as_str OpName.new h = refl
from_name-as_str OpName.noop h = refl
from_name-as_str OpName.or h = refl
from_name-as_str OpName.pop h = refl
from_name-as_str OpName.popeq h = refl
from_name-as_str OpName.push h = refl
from_name-as_str OpName.rem h = refl
from_name-as_str OpName.root h = refl
from_name-as_str OpName.size h = refl
from_name-as_str OpName.sub h = refl
from_name-as_str OpName.subi h = refl
from_name-as_str OpName.swap h = refl
from_name-as_str OpName.type h = refl
from_name-as_str (OpName.unknown name) h = cc
