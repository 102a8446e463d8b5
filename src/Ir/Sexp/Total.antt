-- ===== src/Ir/Sexp/Total.antt =====
-- crates/compact/analyzed-ir/src/sexp.rs: the fuel that `read_one` gives.
use midnight_rs.Base.{
  ℕ, zero, suc, ◌+◌, ◌*◌, ◌≤◌, ◌<◌, ◌≡◌, refl, sym as inverse, subst, false, List, [], ◌∷◌, length,
  arith,
}
use midnight_rs.Ir.Datum.{Sexp, Sexps, nil, Read, on_ok, snoc}
use midnight_rs.Ir.Atoms.{skip_ws, read_string}
use midnight_rs.Ir.Sexp.{
  Start, start_of, Next, next_of, close_pair, read, read_list, finish, read_one,
}
use midnight_rs.Ir.Sexp.Step.{read_at, list_at, read_step, read_list_step}
use midnight_rs.Ir.Sexp.Progress.{
  Ends, Ends-on_ok, Ends-wider, length-skip, read_atom-Ends, read_string-Ends,
}
use midnight_rs.Ir.Sexp.Starts.{
  StartLeft, NextLeft, start_of-StartLeft, next_of-NextLeft, read_hash-Ends, close_pair-Ends,
}

-- The calls at a datum and at a list, for those with less fuel.
module _ (f : ℕ) (reads : (cs : List ℕ) → 2 * length cs < f → Ends (length cs) (read f cs))
    (lists : (items : Sexps) (cs : List ℕ)
      → suc (2 * length cs) < f
      → Ends (length cs) (read_list f items cs)) where
  read_at-Ends :
      (cs : List ℕ) (s : Start)
      → 2 * length cs < suc f
      → StartLeft (length cs) s
      → Ends (length cs) (read_at f cs s)
  read_at-Ends cs Start.finished h left = omega arith
  read_at-Ends cs (Start.opening rest) h left =
      Ends-wider (length rest) (length cs) (read_list f nil rest) (omega arith)
        (lists nil rest (omega arith))
  read_at-Ends cs Start.closing h left = omega arith
  read_at-Ends cs (Start.quoting rest) h left =
      Ends-on_ok (length rest) (length cs) (read f rest) _ (omega arith) (reads rest (omega arith))
        (λ s rest' lt. omega arith)
  read_at-Ends cs (Start.quotes rest) h left =
      Ends-wider (length rest) (length cs) (read_string f [] rest) (omega arith)
        (read_string-Ends f [] rest (omega arith))
  read_at-Ends cs Start.hash h left = read_hash-Ends f cs (omega arith)
  read_at-Ends cs Start.atom h left = read_atom-Ends cs

  list_at-Ends :
      (items : Sexps) (cs : List ℕ) (n : Next)
      → suc (2 * length cs) < suc f
      → NextLeft (length cs) n
      → Ends (length cs) (list_at f items cs n)
  list_at-Ends items cs Next.finished h left = omega arith
  list_at-Ends items cs (Next.closing rest) h left = left
  list_at-Ends items cs (Next.dot rest) h left =
      Ends-on_ok (length rest) (length cs) (read f rest) _ (omega arith) (reads rest (omega arith))
        (λ tail rest' lt.
          Ends-wider (length (skip_ws rest')) (length cs) (close_pair items tail (skip_ws rest'))
            (omega (arith, length-skip false rest')) (close_pair-Ends items tail (skip_ws rest')))
  list_at-Ends items cs Next.item h left =
      Ends-on_ok (length cs) (length cs) (read f cs) _ (omega arith) (reads cs (omega arith))
        (λ s rest lt.
          Ends-wider (length rest) (length cs) (read_list f (snoc items s) rest) (omega arith)
            (lists (snoc items s) rest (omega arith)))

mutual
  read-Ends : (f : ℕ) (cs : List ℕ) → 2 * length cs < f → Ends (length cs) (read f cs)
  read-Ends zero cs h = absurd (omega arith)
  read-Ends (suc f) cs h =
      Ends-wider (length (skip_ws cs)) (length cs) (read (suc f) cs) (length-skip false cs) (
        subst (Ends (length (skip_ws cs))) (inverse (read_step f cs)) (
          read_at-Ends f (read-Ends f) (read_list-Ends f) (skip_ws cs) (start_of (skip_ws cs))
            (omega (arith, length-skip false cs)) (start_of-StartLeft (skip_ws cs))))

  read_list-Ends :
      (f : ℕ) (items : Sexps) (cs : List ℕ)
      → suc (2 * length cs) < f
      → Ends (length cs) (read_list f items cs)
  read_list-Ends zero items cs h = absurd (omega arith)
  read_list-Ends (suc f) items cs h =
      Ends-wider (length (skip_ws cs)) (length cs) (read_list (suc f) items cs)
        (length-skip false cs)
        (subst (Ends (length (skip_ws cs))) (inverse (read_list_step f items cs)) (
          list_at-Ends f (read-Ends f) (read_list-Ends f) items (skip_ws cs) (next_of (skip_ws cs))
            (omega (arith, length-skip false cs)) (next_of-NextLeft (skip_ws cs))))

-- What `read_one` may give on an input: a datum with all of the input read, or an error at a
-- position within the input.
abbrev pub Answers : List ℕ → Read Sexp → Type 0
Answers src (Read.ok s rest) = rest ≡ []
Answers src (Read.err p rest) = length rest ≤ length src
Answers src Read.out_of_fuel = ⊥

finish-Answers :
    (src : List ℕ) (s : Sexp) (rest : List ℕ)
    → length rest ≤ length src
    → Answers src (finish s rest)
finish-Answers src s [] h = refl
finish-Answers src s (c ∷ rest) h = h

on_ok-Answers :
    (src : List ℕ) (r : Read Sexp)
    → Ends (length src) r
    → Answers src (on_ok r (λ s rest. finish s (skip_ws rest)))
on_ok-Answers src (Read.ok s rest) e =
    finish-Answers src s (skip_ws rest) (omega (arith, length-skip false rest))
on_ok-Answers src (Read.err p rest) e = e
on_ok-Answers src Read.out_of_fuel e = e

-- The reader ends on every input, with a datum and all of the input read, or with an error whose
-- position lies within the input: the fuel is enough.
pub read_one-Answers : (src : List ℕ) → Answers src (read_one src)
unfolding read_one
read_one-Answers src =
    on_ok-Answers src (read (2 * length src + 2) src)
      (read-Ends (2 * length src + 2) src (omega arith))
