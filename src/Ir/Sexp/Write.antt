-- ===== src/Ir/Sexp/Write.antt =====
-- The written form of a datum, that of Chez Scheme's `write` but for the control characters without an
-- escape of their own, which stand as they are.
use midnight_rs.Base.{
  ℕ, zero, suc, ◌+◌, ◌/◌, ◌%◌, Bool, true, false, ◌&&◌, not, List, [], ◌∷◌, ◌++◌, ltb, leb, ◌==◌,
  if◌then◌else◌, is_empty, all, ℤ, pos, negsuc,
}
use midnight_rs.Ir.Datum.{Sexp, Sexps, sym, str, int, bool, bytes, list, pair, nil, cons}
use midnight_rs.Ir.Atoms.{is_delimiter, is_number, hash_t, hash_f, hash_vu8}

-- The decimal digits of a number, in front of others; a number has fewer digits than its successor.
unfoldable pub decimal_from : ℕ → ℕ → List ℕ → List ℕ
decimal_from zero n digits = digits
decimal_from (suc f) n digits =
    let more = decimal_from f (n / 10) ((b'0' + n % 10) ∷ digits) in
    if ltb n 10 then (b'0' + n) ∷ digits else more

unfoldable pub decimal : ℕ → List ℕ
unfolding decimal_from
decimal n = decimal_from (suc n) n []

abbrev pub write_int : ℤ → List ℕ
write_int (pos n) = decimal n
write_int (negsuc n) = b'-' ∷ decimal (suc n)

abbrev escaped : ℕ → List ℕ
escaped c = 92 ∷ c ∷ []

abbrev pub write_char : ℕ → List ℕ
write_char c =
    if c == 7
    then escaped b'a'
    else if c == 8
    then escaped b'b'
    else if c == 9
    then escaped b't'
    else if c == 10
    then escaped b'n'
    else if c == 11
    then escaped b'v'
    else if c == 12
    then escaped b'f'
    else if c == 13
    then escaped b'r'
    else if c == 34
    then escaped 34
    else if c == 92
    then escaped 92
    else c ∷ []

abbrev pub write_chars : List ℕ → List ℕ
write_chars [] = 34 ∷ []
write_chars (c ∷ cs) = write_char c ++ write_chars cs

abbrev pub gap : Bool → List ℕ
gap first = if first then [] else b' ' ∷ []

abbrev pub write_bytes : Bool → List ℕ → List ℕ
write_bytes first [] = b')' ∷ []
write_bytes first (b ∷ bs) = gap first ++ (decimal b ++ write_bytes false bs)

unfoldable mutual
  unfolding decimal

  pub write : Sexp → List ℕ
  write (sym s) = s
  write (str s) = 34 ∷ write_chars s
  write (int i) = write_int i
  write (bool true) = hash_t
  write (bool false) = hash_f
  write (bytes bs) = hash_vu8 ++ write_bytes true bs
  write (list items) = b'(' ∷ write_items items true
  write (pair a b) = b'(' ∷ (write a ++ b' ' ∷ b'.' ∷ b' ' ∷ (write b ++ b')' ∷ []))

  pub write_items : Sexps → Bool → List ℕ
  write_items nil first = b')' ∷ []
  write_items (cons s ss) first = gap first ++ (write s ++ write_items ss false)

-- A token that reads as a symbol wherever it stands.
abbrev pub is_symbol : List ℕ → Bool
is_symbol [] = false
is_symbol (c ∷ cs) =
    not (is_delimiter c)
    && all (λ d. not (is_delimiter d)) cs
    && not (c == 39)
    && not (c == b'#')
    && not (c == b'.' && is_empty cs)
    && not (is_number (c ∷ cs))
    && not (c == b'-' && is_number cs)

-- The data whose symbols are such tokens and whose bytevectors hold bytes.
unfoldable mutual
  unfolding is_delimiter

  pub is_written : Sexp → Bool
  is_written (sym s) = is_symbol s
  is_written (str s) = true
  is_written (int i) = true
  is_written (bool b) = true
  is_written (bytes bs) = all (λ b. leb b 255) bs
  is_written (list items) = are_written items
  is_written (pair a b) = is_written a && is_written b

  pub are_written : Sexps → Bool
  are_written nil = true
  are_written (cons s ss) = is_written s && are_written ss
