-- ===== src/Ir/Sexp/Written.antt =====
-- Written data: how they start, their lengths, and what follows an item of a list.
use midnight_rs.Base.{
  ℕ, ◌<◌, ◌≡◌, refl, sym as inverse, ◌∙◌, ap, Bool, true, false, List, [], ◌∷◌, ◌++◌, length,
  length-append, arith,
}
use midnight_rs.Ir.Datum.{Sexp, Sexps, sym, str, int, bool, bytes, list, pair, nil, cons, snoc}
use midnight_rs.Ir.Atoms.{is_delimiter}
use midnight_rs.Ir.Sexp.{is_lone}
use midnight_rs.Ir.Sexp.Write.{
  decimal, write_int, gap, write_chars, write_char, write_bytes, write, write_items, is_written,
}
use midnight_rs.Ir.Sexp.Scan.{decimal-Digits}
use midnight_rs.Ir.Sexp.Tokens.{Opens, Token-Opens, symbol-Token, write_int-Token}

pub write-Opens : (s : Sexp) → is_written s ≡ true → Opens (write s)
unfolding write is_written
write-Opens (sym s) h = Token-Opens s (symbol-Token s h)
write-Opens (int i) h = Token-Opens (write_int i) (write_int-Token i)
write-Opens (str s) h = record {
  c = 34;
  cs = write_chars s;
  parts = refl;
  solid = refl;
  stays_open = refl;
  no_dot = λ rest. refl;
}
write-Opens (bool true) h = record {
  c = b'#';
  cs = b't' ∷ [];
  parts = refl;
  solid = refl;
  stays_open = refl;
  no_dot = λ rest. refl;
}
write-Opens (bool false) h = record {
  c = b'#';
  cs = b'f' ∷ [];
  parts = refl;
  solid = refl;
  stays_open = refl;
  no_dot = λ rest. refl;
}
write-Opens (bytes bs) h = record {
  c = b'#';
  cs = b'v' ∷ b'u' ∷ b'8' ∷ b'(' ∷ write_bytes true bs;
  parts = refl;
  solid = refl;
  stays_open = refl;
  no_dot = λ rest. refl;
}
write-Opens (list items) h = record {
  c = b'(';
  cs = write_items items true;
  parts = refl;
  solid = refl;
  stays_open = refl;
  no_dot = λ rest. refl;
}
write-Opens (pair a b) h = record {
  c = b'(';
  cs = write a ++ b' ' ∷ b'.' ∷ b' ' ∷ (write b ++ b')' ∷ []);
  parts = refl;
  solid = refl;
  stays_open = refl;
  no_dot = λ rest. refl;
}

pub length-write_pos : (s : Sexp) → is_written s ≡ true → 0 < length (write s)
length-write_pos s h = let o = write-Opens s h in rw o.parts (omega arith)

-- All of a list of items behind others.
abbrev pub pushed : Sexps → Sexps → Sexps
pushed items nil = items
pushed items (cons s ss) = pushed (snoc items s) ss

abbrev pub joined : Sexps → Sexps → Sexps
joined nil ss = ss
joined (cons t ts) ss = cons t (joined ts ss)

pub joined-snoc :
    (items : Sexps) (s : Sexp) (ss : Sexps) → joined (snoc items s) ss ≡ joined items (cons s ss)
joined-snoc nil s ss = refl
joined-snoc (cons t ts) s ss = ap (cons t) (joined-snoc ts s ss)

pub joined-nil : (items : Sexps) → joined items nil ≡ items
joined-nil nil = refl
joined-nil (cons t ts) = ap (cons t) (joined-nil ts)

pub pushed-joined : (ss items : Sexps) → pushed items ss ≡ joined items ss
pushed-joined nil items = inverse (joined-nil items)
pushed-joined (cons s ss) items = pushed-joined ss (snoc items s) ∙ joined-snoc items s ss

pub length-write_char : (c : ℕ) → 0 < length (write_char c)
length-write_char c = ground arith

pub length-write_chars : (s : List ℕ) → length s < length (write_chars s)
length-write_chars [] = omega arith
length-write_chars (c ∷ s) =
    rw (length-append (write_char c) (write_chars s))
      (omega (arith, length-write_char c, length-write_chars s))

pub length-write_bytes : (first : Bool) (bs : List ℕ) → length bs < length (write_bytes first bs)
length-write_bytes first [] = omega arith
length-write_bytes first (b ∷ bs) =
    let d = decimal-Digits b in
    rw (length-append (gap first) (decimal b ++ write_bytes false bs)) (
      rw (length-append (decimal b) (write_bytes false bs))
        (rw d.parts (omega (arith, length-write_bytes false bs))))

pub items_lone : (ss : Sexps) (rest : List ℕ) → is_lone (write_items ss false ++ rest) ≡ true
unfolding write is_delimiter
items_lone nil rest = refl
items_lone (cons s ss) rest = refl
