-- ===== src/Ir/Sexp/RoundTrip.antt =====
-- crates/compact/analyzed-ir/src/sexp.rs: the reader on the written form of a datum.
use midnight_rs.Base.{
  and-true, ℕ, zero, suc, ◌+◌, ◌-◌, ◌*◌, ◌<◌, ◌≡◌, refl, sym as inverse, subst, ◌∙◌, ap, Bool, true,
  false, List, [], ◌∷◌, ◌++◌, append_assoc, append-nil, leb, all, length, length-append, ℤ, arith,
}
use midnight_rs.Ir.Datum.{
  Sexp, Sexps, sym, str, int, bool, bytes, list, pair, nil, cons, Read, on_ok, snoc,
}
use midnight_rs.Ir.Atoms.{skip, is_delimiter, skip_ws, read_hash, hash_t, hash_f}
use midnight_rs.Ir.Sexp.{is_lone, close_pair, read, read_list, read_one, finish}
use midnight_rs.Ir.Sexp.Write.{
  write_int, gap, write, write_items, is_symbol, is_written, are_written,
}
use midnight_rs.Ir.Sexp.Decimal.{atom_of-write_int}
use midnight_rs.Ir.Sexp.Quoted.{regroup, read_string-write_chars, read_bytes-write_bytes}
use midnight_rs.Ir.Sexp.Step.{
  read_step, read_list_step, read_list-item, read-behind_space, read-Token,
}
use midnight_rs.Ir.Sexp.Tokens.{symbol-Token, write_int-Token, symbol_atom}
use midnight_rs.Ir.Sexp.Written.{
  write-Opens, length-write_pos, pushed, pushed-joined, length-write_chars, length-write_bytes,
  items_lone,
}

abbrev Reads : Sexp → Type 0
Reads s =
    (f : ℕ) (rest : List ℕ)
    → 2 * length (write s) < f
    → is_lone rest ≡ true
    → read f (write s ++ rest) ≡ Read.ok s rest

read_list-dot :
    (f : ℕ) (items : Sexps) (rest : List ℕ)
    → read_list (suc f) items (b' ' ∷ b'.' ∷ b' ' ∷ rest)
      ≡ on_ok (read f (b' ' ∷ rest)) (λ tail rest'. close_pair items tail (skip_ws rest'))
unfolding is_delimiter skip
read_list-dot f items rest = read_list_step f items (b' ' ∷ b'.' ∷ b' ' ∷ rest)

length-write_pair :
    (a b : Sexp) → length (write (pair a b)) ≡ length (write a) + length (write b) + 5
unfolding write
length-write_pair a b =
    rw
      (
        length-append (write a) (b' ' ∷ b'.' ∷ b' ' ∷ (write b ++ b')' ∷ [])),
        length-append (write b) (b')' ∷ []),
      )
      (omega arith)

-- A pair, from behind its parenthesis.
read_list-pair :
    (g : ℕ) (a b : Sexp) (rest : List ℕ)
    → is_written a ≡ true
    → is_written b ≡ true
    → Reads a
    → Reads b
    → 2 * length (write a) < suc (suc g)
    → 2 * length (write b) < suc g
    → read_list (suc (suc (suc g))) nil (write a ++ b' ' ∷ b'.' ∷ b' ' ∷ (write b ++ b')' ∷ rest))
      ≡ Read.ok (pair a b) rest
unfolding is_delimiter skip
read_list-pair g a b rest ha hb ra rb fa fb =
    read_list-item (suc (suc g)) nil true (write a) _ (write-Opens a ha)
    ∙ (rw (ra (suc (suc g)) (b' ' ∷ b'.' ∷ b' ' ∷ (write b ++ b')' ∷ rest)) fa refl) (
        read_list-dot (suc g) (cons a nil) (write b ++ b')' ∷ rest)
        ∙ (rw (
          read-behind_space g (write b) (b')' ∷ rest) (write-Opens b hb),
          rb (suc g) (b')' ∷ rest) fb refl,
        ))))

read-pair : (a b : Sexp) → is_written (pair a b) ≡ true → Reads a → Reads b → Reads (pair a b)
unfolding is_written write skip
read-pair a b h ra rb f rest fuel lone =
    subst (λ g. read g (write (pair a b) ++ rest) ≡ Read.ok (pair a b) rest) (inverse enough)
      (read_step (suc (suc (suc (f - 4)))) (write (pair a b) ++ rest)
        ∙ ap (read_list (suc (suc (suc (f - 4)))) nil) grouped
        ∙ read_list-pair (f - 4) a b rest written.0 written.1 ra rb (omega (arith, fuel, size))
            (omega (arith, fuel, size)))
  where
    size : length (write (pair a b)) ≡ length (write a) + length (write b) + 5
    size = length-write_pair a b

    enough : f ≡ suc (suc (suc (suc (f - 4))))
    enough = omega (arith, fuel, size)

    written : is_written a ≡ true × is_written b ≡ true
    written = and-true (is_written a) (is_written b) h

    grouped :
        (write a ++ b' ' ∷ b'.' ∷ b' ' ∷ (write b ++ b')' ∷ [])) ++ rest
        ≡ write a ++ b' ' ∷ b'.' ∷ b' ' ∷ (write b ++ b')' ∷ rest)
    grouped =
        append_assoc (write a) (b' ' ∷ b'.' ∷ b' ' ∷ (write b ++ b')' ∷ [])) rest
        ∙ ap (λ l. write a ++ b' ' ∷ b'.' ∷ b' ' ∷ l) (append_assoc (write b) (b')' ∷ []) rest)

read-str : (s : List ℕ) → Reads (str s)
unfolding write skip
read-str s zero rest fuel lone = absurd (omega arith)
read-str s (suc f) rest fuel lone =
    read_step f (write (str s) ++ rest)
    ∙ read_string-write_chars f [] s rest (omega (arith, length-write_chars s))

read-bytes : (bs : List ℕ) → all (λ b. leb b 255) bs ≡ true → Reads (bytes bs)
unfolding write skip read_hash
read-bytes bs h zero rest fuel lone = absurd (omega arith)
read-bytes bs h (suc f) rest fuel lone =
    read_step f (write (bytes bs) ++ rest)
    ∙ read_bytes-write_bytes f [] true bs rest (omega (arith, length-write_bytes true bs)) h

read-bool : (b : Bool) → Reads (bool b)
unfolding write skip read_hash
read-bool b zero rest fuel lone = absurd (omega arith)
read-bool true (suc f) rest fuel lone = read_step f (hash_t ++ rest)
read-bool false (suc f) rest fuel lone = read_step f (hash_f ++ rest)

read-sym : (s : List ℕ) → is_symbol s ≡ true → Reads (sym s)
unfolding write
read-sym s h zero rest fuel lone = absurd (omega arith)
read-sym s h (suc f) rest fuel lone =
    read-Token f s rest (symbol-Token s h) lone ∙ ap (λ a. Read.ok a rest) (symbol_atom s h)

read-int : (i : ℤ) → Reads (int i)
unfolding write
read-int i zero rest fuel lone = absurd (omega arith)
read-int i (suc f) rest fuel lone =
    read-Token f (write_int i) rest (write_int-Token i) lone
    ∙ ap (λ a. Read.ok a rest) (atom_of-write_int i)

abbrev ReadsItems : Sexps → Type 0
ReadsItems ss =
    (f : ℕ) (items : Sexps) (first : Bool) (rest : List ℕ)
    → suc (2 * length (write_items ss first)) < f
    → read_list f items (write_items ss first ++ rest) ≡ Read.ok (list (pushed items ss)) rest

read-list : (ss : Sexps) → ReadsItems ss → Reads (list ss)
unfolding write skip
read-list ss rs zero rest fuel lone = absurd (omega arith)
read-list ss rs (suc f) rest fuel lone =
    read_step f (write (list ss) ++ rest)
    ∙ rs f nil true rest (omega arith)
    ∙ ap (λ l. Read.ok (list l) rest) (pushed-joined ss nil)

read_list-nil : ReadsItems nil
unfolding write skip
read_list-nil zero items first rest fuel = absurd (omega arith)
read_list-nil (suc f) items first rest fuel = read_list_step f items (b')' ∷ rest)

read_list-cons :
    (s : Sexp) (ss : Sexps) → is_written s ≡ true → Reads s → ReadsItems ss → ReadsItems (cons s ss)
unfolding write
read_list-cons s ss h r rs zero items first rest fuel = absurd (omega arith)
read_list-cons s ss h r rs (suc f) items first rest fuel =
    ap (read_list (suc f) items) (regroup (gap first) (write s) (write_items ss false) rest)
    ∙ read_list-item f items first (write s) (write_items ss false ++ rest) (write-Opens s h)
    ∙ (rw (r f (write_items ss false ++ rest) (omega (arith, size, fuel)) (items_lone ss rest))
        (rs f (snoc items s) false rest (omega (arith, size, fuel, length-write_pos s h))))
  where
    size :
        length (write_items (cons s ss) first)
        ≡ length (gap first) + (length (write s) + length (write_items ss false))
    size =
        length-append (gap first) (write s ++ write_items ss false)
        ∙ ap (λ n. length (gap first) + n) (length-append (write s) (write_items ss false))

mutual
  unfolding is_written

  written-Reads : (s : Sexp) → is_written s ≡ true → Reads s
  written-Reads (sym s) h = read-sym s h
  written-Reads (str s) h = read-str s
  written-Reads (int i) h = read-int i
  written-Reads (bool b) h = read-bool b
  written-Reads (bytes bs) h = read-bytes bs h
  written-Reads (list ss) h = read-list ss (written-ReadsItems ss h)
  written-Reads (pair a b) h =
      let (ha, hb) = and-true (is_written a) (is_written b) h in
      read-pair a b h (written-Reads a ha) (written-Reads b hb)

  written-ReadsItems : (ss : Sexps) → are_written ss ≡ true → ReadsItems ss
  written-ReadsItems nil h = read_list-nil
  written-ReadsItems (cons s ss) h =
      let (hs, hss) = and-true (is_written s) (are_written ss) h in
      read_list-cons s ss hs (written-Reads s hs) (written-ReadsItems ss hss)

-- Every datum whose symbols are tokens that read as symbols, and whose bytevectors hold bytes, is read
-- back from its written form, with nothing left over.
pub read_one-write : (s : Sexp) → is_written s ≡ true → read_one (write s) ≡ Read.ok s []
unfolding read_one
read_one-write s h =
    ap (λ src. on_ok (read (2 * length (write s) + 2) src) (λ s rest. finish s (skip_ws rest)))
      (inverse (append-nil (write s)))
    ∙ (rw (written-Reads s h (2 * length (write s) + 2) [] (omega arith) refl))
