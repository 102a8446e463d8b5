-- ===== src/Ir/Sexp/Tokens.antt =====
-- The tokens of written data: how a datum starts, and which tokens are atoms.
use midnight_rs.Base.{
  and-true, ℕ, suc, ◌≡◌, refl, true, false, ◌&&◌, not, List, [], ◌∷◌, ◌++◌, ◌==◌, is_empty, all, ℤ,
  pos, negsuc, arith, Bool-cases, inl, inr,
}
use midnight_rs.Ir.Datum.{sym}
use midnight_rs.Ir.Atoms.{is_delimiter, atom_of, is_digit}
use midnight_rs.Ir.Sexp.{start_of, Start, is_lone, is_close}
use midnight_rs.Ir.Sexp.Write.{write_int, is_symbol}
use midnight_rs.Ir.Sexp.Scan.{is_solid, solid_token, digits-not_delimiters, decimal-Digits}

-- The first byte of a written datum: the reader stops at it, it closes no list, and it is no lone dot.
pub record Opens (text : List ℕ) : Type 0 where
  pub c : ℕ
  pub cs : List ℕ
  pub parts : text ≡ c ∷ cs
  pub solid : is_solid c ≡ true
  pub stays_open : is_close c ≡ false
  pub no_dot : (rest : List ℕ) → (c == b'.' && is_lone (cs ++ rest)) ≡ false

-- A token that the reader takes as an atom.
pub record Token (t : List ℕ) : Type 0 where
  pub c : ℕ
  pub cs : List ℕ
  pub parts : t ≡ c ∷ cs
  pub whole : all (λ d. not (is_delimiter d)) (c ∷ cs) ≡ true
  pub starts : (rest : List ℕ) → start_of (c ∷ cs ++ rest) ≡ Start.atom
  pub no_dot : (c == b'.' && is_empty cs) ≡ false

tok_open : (c : ℕ) → not (is_delimiter c) ≡ true → is_close c ≡ false
unfolding is_delimiter
tok_open c h = ground arith

lone_in_token :
    (cs rest : List ℕ)
    → all (λ d. not (is_delimiter d)) cs ≡ true
    → is_empty cs ≡ false
    → is_lone (cs ++ rest) ≡ false
lone_in_token [] rest h e = cc
lone_in_token (c ∷ cs) rest h e = ground arith

pub Token-Opens : (t : List ℕ) → Token t → Opens t
Token-Opens t k = record {
  c = k.c;
  cs = k.cs;
  parts = k.parts;
  solid = solid_token k.c first;
  stays_open = tok_open k.c first;
  no_dot = λ rest. elim (Bool-cases (k.c == b'.')) [
    | inl dot ↦ rw dot (lone_in_token k.cs rest others (rw dot at k.no_dot))
    | inr other ↦ rw other
  ];
}
  where
    first : not (is_delimiter k.c) ≡ true
    first = (and-true (not (is_delimiter k.c)) (all (λ d. not (is_delimiter d)) k.cs) k.whole).0

    others : all (λ d. not (is_delimiter d)) k.cs ≡ true
    others = (and-true (not (is_delimiter k.c)) (all (λ d. not (is_delimiter d)) k.cs) k.whole).1

symbol_start :
    (c : ℕ) (rest : List ℕ)
    → not (is_delimiter c) ≡ true
    → (c == 39) ≡ false
    → (c == b'#') ≡ false
    → start_of (c ∷ rest) ≡ Start.atom
unfolding is_delimiter
symbol_start c rest token quote hash = ground arith

pub symbol-Token : (s : List ℕ) → is_symbol s ≡ true → Token s
symbol-Token [] h = cc
symbol-Token (c ∷ cs) h = record {
  c = c;
  cs = cs;
  parts = refl;
  whole = ground arith;
  starts = λ rest. symbol_start c (cs ++ rest) (ground arith) (ground arith) (ground arith);
  no_dot = ground arith;
}

digit_token : (c : ℕ) → is_digit c ≡ true → not (is_delimiter c) ≡ true
unfolding is_delimiter
digit_token c h = ground arith

number_Token : (c : ℕ) (cs : List ℕ) → is_digit c ≡ true → all is_digit cs ≡ true → Token (c ∷ cs)
number_Token c cs one more = record {
  c = c;
  cs = cs;
  parts = refl;
  whole = rw (digit_token c one) (digits-not_delimiters cs more);
  starts = λ rest. symbol_start c (cs ++ rest) (digit_token c one) (ground arith) (ground arith);
  no_dot = ground arith;
}

negative_Token :
    (c : ℕ) (cs : List ℕ) → is_digit c ≡ true → all is_digit cs ≡ true → Token (b'-' ∷ c ∷ cs)
unfolding is_delimiter
negative_Token c cs one more = record {
  c = b'-';
  cs = c ∷ cs;
  parts = refl;
  whole = rw (digit_token c one) (digits-not_delimiters cs more);
  starts = λ rest. refl;
  no_dot = refl;
}

pub write_int-Token : (i : ℤ) → Token (write_int i)
write_int-Token (pos n) =
    let d = decimal-Digits n in rw d.parts (number_Token d.c d.cs d.first d.others)
write_int-Token (negsuc n) =
    let d = decimal-Digits (suc n) in rw d.parts (negative_Token d.c d.cs d.first d.others)

pub symbol_atom : (s : List ℕ) → is_symbol s ≡ true → atom_of s ≡ sym s
symbol_atom [] h = cc
symbol_atom (c ∷ cs) h = ground arith
