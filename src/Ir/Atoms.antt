-- ===== src/Ir/Atoms.antt =====
-- crates/compact/analyzed-ir/src/sexp.rs: the pieces of the reader that read one token: atoms, strings
-- and what stands behind a `#`.
use midnight_rs.Base.{
  ℕ, zero, suc, ◌+◌, ◌-◌, ◌*◌, ◌/◌, ◌%◌, ◌^◌, Bool, true, false, ◌&&◌, ◌||◌, not, Option, none,
  some, List, [], ◌∷◌, ◌++◌, ltb, leb, ◌==◌, if◌then◌else◌, is_empty, all, ℤ, pos, negsuc,
}
use midnight_rs.Ir.Datum.{Sexp, Problem, Read, on_ok, sym, str, int, bool, bytes}

-- `is_ascii_whitespace`
abbrev pub is_whitespace : ℕ → Bool
is_whitespace c = c == b' ' || c == 9 || c == 10 || c == 12 || c == 13

unfoldable pub is_delimiter : ℕ → Bool
is_delimiter c =
    is_whitespace c || c == b'(' || c == b')' || c == b'[' || c == b']' || c == 34 || c == b';'

-- The white space and the comments that the input starts with are left out; in a comment, also the
-- rest of its line.
unfoldable pub skip : Bool → List ℕ → List ℕ
skip comment [] = []
skip comment (c ∷ cs) =
    let rest = skip (if comment then not (c == 10) else c == b';') cs in
    if comment || is_whitespace c || c == b';' then rest else c ∷ cs

abbrev pub skip_ws : List ℕ → List ℕ
skip_ws cs = skip false cs

-- The bytes up to the first that fails the test, and the others.
unfoldable pub span : (ℕ → Bool) → List ℕ → List ℕ × List ℕ
span p [] = ([], [])
span p (c ∷ cs) = let (taken, rest) = span p cs in if p c then (c ∷ taken, rest) else ([], c ∷ cs)

-- `strip_prefix`
abbrev pub strip_prefix : List ℕ → List ℕ → Option (List ℕ)
strip_prefix [] cs = some cs
strip_prefix (p ∷ ps) [] = none
strip_prefix (p ∷ ps) (c ∷ cs) = if p == c then strip_prefix ps cs else none

abbrev pub is_digit : ℕ → Bool
is_digit c = leb b'0' c && leb c b'9'

unfoldable pub digits_value : ℕ → List ℕ → ℕ
digits_value n [] = n
digits_value n (c ∷ cs) = digits_value (10 * n + (c - b'0')) cs

abbrev pub is_number : List ℕ → Bool
is_number t = not (is_empty t) && all is_digit t

abbrev pub negated : ℕ → ℤ
negated zero = pos zero
negated (suc n) = negsuc n

-- A token: a number after one `-` at most, or a symbol.
abbrev pub atom_of : List ℕ → Sexp
atom_of [] = sym []
atom_of (c ∷ cs) =
    if c == b'-'
    then if is_number cs then int (negated (digits_value 0 cs)) else sym (c ∷ cs)
    else if is_number (c ∷ cs)
    then int (pos (digits_value 0 (c ∷ cs)))
    else sym (c ∷ cs)

abbrev pub token_of : List ℕ → List ℕ × List ℕ → Read Sexp
token_of cs ([], rest) = Read.err Problem.empty_token cs
token_of cs (c ∷ tok, rest) = Read.ok (atom_of (c ∷ tok)) rest

unfoldable pub read_atom : List ℕ → Read Sexp
unfolding span is_delimiter digits_value
read_atom cs = token_of cs (span (λ c. not (is_delimiter c)) cs)

pub data Escape : Type 0 where
  char : ℕ → Escape
  hex unknown : Escape

abbrev pub escape_of : ℕ → Escape
escape_of c =
    if c == b'a'
    then Escape.char 7
    else if c == b'b'
    then Escape.char 8
    else if c == b't'
    then Escape.char 9
    else if c == b'n'
    then Escape.char 10
    else if c == b'v'
    then Escape.char 11
    else if c == b'f'
    then Escape.char 12
    else if c == b'r'
    then Escape.char 13
    else if c == 34
    then Escape.char 34
    else if c == 92
    then Escape.char 92
    else if c == b'x'
    then Escape.hex
    else Escape.unknown

abbrev pub is_hexdigit : ℕ → Bool
is_hexdigit c = is_digit c || (leb b'a' c && leb c b'f') || (leb b'A' c && leb c b'F')

abbrev pub hexdigit_value : ℕ → ℕ
hexdigit_value c =
    if is_digit c then c - b'0' else if leb b'a' c then c - b'a' + 10 else c - b'A' + 10

abbrev pub hex_value : ℕ → List ℕ → ℕ
hex_value n [] = n
hex_value n (c ∷ cs) = hex_value (16 * n + hexdigit_value c) cs

-- `u32::from_str_radix(digits, 16)` on hex digits
abbrev pub from_hex : List ℕ → Option ℕ
from_hex [] = none
from_hex (c ∷ cs) =
    if ltb (hex_value 0 (c ∷ cs)) (2 ^ 32) then some (hex_value 0 (c ∷ cs)) else none

-- `char::from_u32(n).is_some()`
abbrev pub is_scalar : ℕ → Bool
is_scalar n = ltb n 0xD800 || (leb 0xE000 n && leb n 0x10FFFF)

abbrev pub scalar_of : Option ℕ → List ℕ → Read ℕ
scalar_of none rest = Read.err Problem.not_scalar rest
scalar_of (some n) rest = if is_scalar n then Read.ok n rest else Read.err Problem.not_scalar rest

abbrev pub end_hex : List ℕ × List ℕ → Read ℕ
end_hex (digits, []) = Read.err Problem.unterminated_hex []
end_hex (digits, c ∷ rest) =
    if c == b';' then scalar_of (from_hex digits) rest else Read.err Problem.unterminated_hex rest

unfoldable pub read_escape : List ℕ → Read ℕ
unfolding span
read_escape [] = Read.err Problem.unterminated_escape []
read_escape (c ∷ cs) = elim (escape_of c) [
  | Escape.char n ↦ Read.ok n cs
  | Escape.hex ↦ end_hex (span is_hexdigit cs)
  | Escape.unknown ↦ Read.err Problem.unknown_escape cs
]

-- The UTF-8 bytes of a character.
abbrev pub utf8 : ℕ → List ℕ
utf8 n =
    if ltb n 0x80
    then n ∷ []
    else if ltb n 0x800
    then (0xC0 + n / 64) ∷ (0x80 + n % 64) ∷ []
    else if ltb n 0x10000
    then (0xE0 + n / 4096) ∷ (0x80 + n / 64 % 64) ∷ (0x80 + n % 64) ∷ []
    else (0xF0 + n / 262144) ∷ (0x80 + n / 4096 % 64) ∷ (0x80 + n / 64 % 64) ∷ (0x80 + n % 64) ∷ []

abbrev pub is_plain : ℕ → Bool
is_plain c = not (c == 34) && not (c == 92)

-- What stops a chunk of a string: its end, an escape, or the end of the input.
abbrev pub on_stop : List ℕ → List ℕ × List ℕ → (List ℕ → List ℕ → Read Sexp) → Read Sexp
on_stop out (chunk, []) k = Read.err Problem.unterminated_string []
on_stop out (chunk, c ∷ rest) k =
    if c == 34 then Read.ok (str (out ++ chunk)) rest else k (out ++ chunk) rest

-- `read_string`, behind the opening quote.
unfoldable pub read_string : ℕ → List ℕ → List ℕ → Read Sexp
unfolding span read_escape
read_string zero out cs = Read.out_of_fuel
read_string (suc f) out cs =
    on_stop out (span is_plain cs)
      (λ out' rest. on_ok (read_escape rest) (λ n rest'. read_string f (out' ++ utf8 n) rest'))

-- An element of a bytevector.
abbrev pub byte_of : Sexp → List ℕ → Read ℕ
byte_of (int (pos n)) rest = if leb n 255 then Read.ok n rest else Read.err Problem.byte_range rest
byte_of (int (negsuc n)) rest = Read.err Problem.byte_range rest
byte_of _ rest = Read.err Problem.not_integer rest

abbrev pub on_byte : List ℕ → List ℕ → (List ℕ → Read Sexp) → Read Sexp
on_byte acc [] k = Read.err Problem.unterminated_bytes []
on_byte acc (c ∷ cs) k = if c == b')' then Read.ok (bytes acc) cs else k (c ∷ cs)

unfoldable pub read_bytes : ℕ → List ℕ → List ℕ → Read Sexp
unfolding skip read_atom
read_bytes zero acc cs = Read.out_of_fuel
read_bytes (suc f) acc cs = on_byte acc (skip_ws cs) (λ cs'.
    on_ok (read_atom cs')
      (λ s rest. on_ok (byte_of s rest) (λ n rest'. read_bytes f (acc ++ n ∷ []) rest')))

abbrev pub hash_t : List ℕ
hash_t = b'#' ∷ b't' ∷ []

abbrev pub hash_f : List ℕ
hash_f = b'#' ∷ b'f' ∷ []

abbrev pub hash_vu8 : List ℕ
hash_vu8 = b'#' ∷ b'v' ∷ b'u' ∷ b'8' ∷ b'(' ∷ []

unfoldable pub read_hash : ℕ → List ℕ → Read Sexp
unfolding read_bytes
read_hash f cs = elim (strip_prefix hash_t cs) [
  | some rest ↦ Read.ok (bool true) rest
  | none ↦ elim (strip_prefix hash_f cs) [
    | some rest ↦ Read.ok (bool false) rest
    | none ↦ elim (strip_prefix hash_vu8 cs) [
      | some rest ↦ read_bytes f [] rest
      | none ↦ Read.err Problem.unknown_hash cs
    ]
  ]
]
