-- ===== src/Ir/Sexp/Scan.antt =====
-- What the scanners of the reader do on a written token, string or bytevector.
use midnight_rs.Base.{
  and-true, ℕ, ◌≡◌, refl, sym as inverse, ◌∙◌, ap, Bool, true, false, ◌&&◌, not, List, [], ◌∷◌,
  ◌++◌, ◌==◌, all, pos, arith,
}
use midnight_rs.Ir.Datum.{int, Read}
use midnight_rs.Ir.Atoms.{
  is_whitespace, is_delimiter, skip, skip_ws, span, is_digit, is_number, atom_of, read_atom,
}
use midnight_rs.Ir.Sexp.{is_lone}
use midnight_rs.Ir.Sexp.Write.{decimal, gap}
use midnight_rs.Ir.Sexp.Decimal.{decimal-is_number, atom_of-write_int}

-- A byte that starts a datum: `skip_ws` stops at it.
abbrev pub is_solid : ℕ → Bool
is_solid c = not (is_whitespace c) && not (c == b';')

pub skip_ws-solid : (c : ℕ) (cs : List ℕ) → is_solid c ≡ true → skip_ws (c ∷ cs) ≡ c ∷ cs
unfolding skip
skip_ws-solid c cs h = ground arith

pub skip_ws-gap :
    (first : Bool) (c : ℕ) (cs : List ℕ)
    → is_solid c ≡ true
    → skip_ws (gap first ++ c ∷ cs) ≡ c ∷ cs
unfolding skip
skip_ws-gap true c cs h = skip_ws-solid c cs h
skip_ws-gap false c cs h = skip_ws-solid c cs h

pub solid_token : (c : ℕ) → not (is_delimiter c) ≡ true → is_solid c ≡ true
unfolding is_delimiter
solid_token c h = ground arith

abbrev stops : (ℕ → Bool) → List ℕ → Bool
stops p [] = true
stops p (c ∷ cs) = not (p c)

span-all :
    (p : ℕ → Bool) (tok rest : List ℕ)
    → all p tok ≡ true
    → stops p rest ≡ true
    → span p (tok ++ rest) ≡ (tok, rest)
unfolding span
span-all p [] [] a s = refl
span-all p [] (c ∷ cs) a s = ground arith
span-all p (c ∷ tok) rest a s =
    let (pc, more) = and-true (p c) (all p tok) a in rw (pc, span-all p tok rest more s)

lone_stops : (rest : List ℕ) → is_lone rest ≡ true → stops (λ c. not (is_delimiter c)) rest ≡ true
lone_stops [] h = refl
lone_stops (c ∷ cs) h = rw h

-- A token of no delimiter that a delimiter or the end follows is read as an atom.
pub read_atom-token :
    (c : ℕ) (tok rest : List ℕ)
    → all (λ d. not (is_delimiter d)) (c ∷ tok) ≡ true
    → is_lone rest ≡ true
    → read_atom ((c ∷ tok) ++ rest) ≡ Read.ok (atom_of (c ∷ tok)) rest
unfolding read_atom
read_atom-token c tok rest a lone =
    rw (span-all (λ d. not (is_delimiter d)) (c ∷ tok) rest a (lone_stops rest lone))

digit-not_delimiter : (c : ℕ) → is_digit c ≡ true → not (is_delimiter c) ≡ true
unfolding is_delimiter
digit-not_delimiter c h = ground arith

pub digits-not_delimiters :
    (cs : List ℕ) → all is_digit cs ≡ true → all (λ d. not (is_delimiter d)) cs ≡ true
digits-not_delimiters [] h = refl
digits-not_delimiters (c ∷ cs) h =
    let (one, more) = and-true (is_digit c) (all is_digit cs) h in
    rw (digit-not_delimiter c one) (digits-not_delimiters cs more)

-- The digits of a written number.
pub record Digits (n : ℕ) : Type 0 where
  pub c : ℕ
  pub cs : List ℕ
  pub parts : decimal n ≡ c ∷ cs
  pub first : is_digit c ≡ true
  pub others : all is_digit cs ≡ true

pub decimal-Digits : (n : ℕ) → Digits n
decimal-Digits n = of (decimal n) refl (decimal-is_number n)
  where
    of : (t : List ℕ) → decimal n ≡ t → is_number t ≡ true → Digits n
    of [] e h = absurd (cc)
    of (c ∷ cs) e h =
        let (one, more) = and-true (is_digit c) (all is_digit cs) h in
        record { c = c; cs = cs; parts = e; first = one; others = more }

-- A written number that a delimiter or the end follows.
pub read_atom-decimal :
    (n : ℕ) (rest : List ℕ)
    → is_lone rest ≡ true
    → read_atom (decimal n ++ rest) ≡ Read.ok (int (pos n)) rest
read_atom-decimal n rest lone =
    let d = decimal-Digits n in
    rw d.parts (
      read_atom-token d.c d.cs rest
        (rw (digit-not_delimiter d.c d.first) (digits-not_delimiters d.cs d.others)) lone
      ∙ ap (λ s. Read.ok s rest) (ap atom_of (inverse d.parts) ∙ atom_of-write_int (pos n)))
