-- ===== src/Ir/Datum.antt =====
-- crates/compact/analyzed-ir/src/sexp.rs: the data, and what a piece of their reader gives. `Sexp::Str`
-- and `Sexp::Sym` hold the bytes of their texts.
use midnight_rs.Base.{ℕ, Bool, List, ℤ}

mutual
  pub data Sexp : Type 0 where
    sym : List ℕ → Sexp
    str : List ℕ → Sexp
    int : ℤ → Sexp
    bool : Bool → Sexp
    bytes : List ℕ → Sexp
    list : Sexps → Sexp
    pair : Sexp → Sexp → Sexp

  -- `Vec<Sexp>`
  pub data Sexps : Type 0 where
    nil : Sexps
    cons : Sexp → Sexps → Sexps

-- `items.push(s)`
abbrev pub snoc : Sexps → Sexp → Sexps
snoc nil s = cons s nil
snoc (cons t ts) s = cons t (snoc ts s)

-- `ReadError`, by its message.
pub data Problem : Type 0 where
  end_of_input unexpected_close unterminated_list no_close_after_tail long_pair : Problem
  unterminated_string unterminated_escape unterminated_hex not_scalar unknown_escape : Problem
  unterminated_bytes byte_range not_integer unknown_hash empty_token trailing : Problem

-- What a piece of the reader gives, with the input that is left. `out_of_fuel` is not the program's.
pub data Read {ℓ} (A : Type ℓ) : Type ℓ where
  ok : A → List ℕ → Read A
  err : Problem → List ℕ → Read A
  out_of_fuel : Read A

abbrev pub on_ok {ℓ κ} : {A : Type ℓ} {B : Type κ} → Read A → (A → List ℕ → Read B) → Read B
on_ok (Read.ok a rest) k = k a rest
on_ok (Read.err p rest) k = Read.err p rest
on_ok Read.out_of_fuel k = Read.out_of_fuel
