-- ===== src/Ir/Sexp.antt =====
-- crates/compact/analyzed-ir/src/sexp.rs: the reader of S-expressions. The input is its bytes; the
-- reader's position is what is left of them, so an error's `at` is the input's length less that of
-- what is left.
pub mod Write
pub mod Decimal
pub mod Scan
pub mod Quoted
pub mod Tokens
pub mod Step
pub mod Written
pub mod RoundTrip
pub mod Progress
pub mod Starts
pub mod Total
mod Tests
use midnight_rs.Base.{
  ℕ, zero, suc, ◌+◌, ◌-◌, ◌*◌, ◌/◌, ◌%◌, ◌^◌, Bool, true, false, ◌&&◌, ◌||◌, not, Option, none,
  some, List, [], ◌∷◌, ◌++◌, ltb, leb, ◌==◌, if◌then◌else◌, is_empty, all, length, ℤ, pos, negsuc,
}
use midnight_rs.Ir.Datum.{
  Sexp, Sexps, snoc, Problem, Read, on_ok, sym, str, int, bool, bytes, list, pair, nil, cons,
}
use midnight_rs.Ir.Atoms.{
  is_whitespace, is_delimiter, skip, skip_ws, span, strip_prefix, is_digit, digits_value, is_number,
  negated, atom_of, token_of, read_atom, Escape, escape_of, is_hexdigit, hexdigit_value, hex_value,
  from_hex, is_scalar, scalar_of, end_hex, read_escape, utf8, is_plain, on_stop, read_string,
  byte_of, on_byte, read_bytes, hash_t, hash_f, hash_vu8, read_hash,
}

abbrev pub is_open : ℕ → Bool
is_open c = c == b'(' || c == b'['

abbrev pub is_close : ℕ → Bool
is_close c = c == b')' || c == b']'

-- What a datum starts with.
pub data Start : Type 0 where
  finished closing atom hash : Start
  opening quoting quotes : List ℕ → Start

abbrev pub start_of : List ℕ → Start
start_of [] = Start.finished
start_of (c ∷ cs) =
    if is_open c
    then Start.opening cs
    else if is_close c
    then Start.closing
    else if c == 39
    then Start.quoting cs
    else if c == 34
    then Start.quotes cs
    else if c == b'#'
    then Start.hash
    else Start.atom

-- `lone_dot`, on what follows the dot.
abbrev pub is_lone : List ℕ → Bool
is_lone [] = true
is_lone (c ∷ cs) = is_delimiter c

-- What the next item of a list starts with.
pub data Next : Type 0 where
  finished item : Next
  closing dot : List ℕ → Next

abbrev pub next_of : List ℕ → Next
next_of [] = Next.finished
next_of (c ∷ cs) =
    if is_close c
    then Next.closing cs
    else if c == b'.' && is_lone cs
    then Next.dot cs
    else Next.item

-- The end of a dotted pair.
abbrev pub pair_of : Sexps → Sexp → List ℕ → Read Sexp
pair_of (cons car nil) tail rest = Read.ok (pair car tail) rest
pair_of _ tail rest = Read.err Problem.long_pair rest

abbrev pub close_pair : Sexps → Sexp → List ℕ → Read Sexp
close_pair items tail [] = Read.err Problem.no_close_after_tail []
close_pair items tail (c ∷ cs) =
    if is_close c then pair_of items tail cs else Read.err Problem.no_close_after_tail cs

abbrev pub quote_name : List ℕ
quote_name = b'q' ∷ b'u' ∷ b'o' ∷ b't' ∷ b'e' ∷ []

unfoldable mutual
  pub read : ℕ → List ℕ → Read Sexp
  read zero cs = Read.out_of_fuel
  read (suc f) cs = elim (start_of (skip_ws cs)) [
    | Start.finished ↦ Read.err Problem.end_of_input []
    | Start.opening rest ↦ read_list f nil rest
    | Start.closing ↦ Read.err Problem.unexpected_close (skip_ws cs)
    | Start.quoting rest ↦
        on_ok (read f rest) (λ s rest'. Read.ok (list (cons (sym quote_name) (cons s nil))) rest')
    | Start.quotes rest ↦ read_string f [] rest
    | Start.hash ↦ read_hash f (skip_ws cs)
    | Start.atom ↦ read_atom (skip_ws cs)
  ]

  pub read_list : ℕ → Sexps → List ℕ → Read Sexp
  read_list zero items cs = Read.out_of_fuel
  read_list (suc f) items cs = elim (next_of (skip_ws cs)) [
    | Next.finished ↦ Read.err Problem.unterminated_list []
    | Next.closing rest ↦ Read.ok (list items) rest
    | Next.dot rest ↦ on_ok (read f rest) (λ tail rest'. close_pair items tail (skip_ws rest'))
    | Next.item ↦ on_ok (read f (skip_ws cs)) (λ s rest. read_list f (snoc items s) rest)
  ]

abbrev pub finish : Sexp → List ℕ → Read Sexp
finish s [] = Read.ok s []
finish s (c ∷ cs) = Read.err Problem.trailing (c ∷ cs)

-- Each call takes a byte of the input, or is the one before such a call.
unfoldable pub read_one : List ℕ → Read Sexp
unfolding read skip is_delimiter read_atom read_string read_hash
read_one src = on_ok (read (2 * length src + 2) src) (λ s rest. finish s (skip_ws rest))
