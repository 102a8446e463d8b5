-- ===== src/Ir/Sexp/Tests.antt =====
-- Data and broken inputs, and the theorems there.
use midnight_rs.Base.{ℕ, ◌≡◌, refl, true, List, [], ◌∷◌, negsuc}
use midnight_rs.Ir.Datum.{Sexp, sym, str, int, bool, bytes, list, pair, nil, cons, Read, Problem}
use midnight_rs.Ir.Sexp.{read_one}
use midnight_rs.Ir.Sexp.Write.{write, is_written}
use midnight_rs.Ir.Sexp.RoundTrip.{read_one-write}
use midnight_rs.Ir.Sexp.Total.{Answers, read_one-Answers}

-- (%x.1 (a . -3) "a\"\n" #vu8(0 255) #t ())
abbrev datum : Sexp
datum = list (
    cons (sym (b'%' ∷ b'x' ∷ b'.' ∷ b'1' ∷ [])) (
      cons (pair (sym (b'a' ∷ [])) (int (negsuc 2))) (
        cons (str (b'a' ∷ 34 ∷ 10 ∷ []))
          (cons (bytes (0 ∷ 255 ∷ [])) (cons (bool true) (cons (list nil) nil))))))

read_one-write_example : read_one (write datum) ≡ Read.ok datum []
unfolding is_written
read_one-write_example = read_one-write datum refl

-- (a b . c)
abbrev long : List ℕ
long = b'(' ∷ b'a' ∷ 32 ∷ b'b' ∷ 32 ∷ b'.' ∷ 32 ∷ b'c' ∷ b')' ∷ []

read_long : read_one long ≡ Read.err Problem.long_pair []
unfolding read_one
read_long = refl

-- A comment, brackets, a quoted atom and what stands behind the datum.
abbrev commented : List ℕ
commented = b';' ∷ b'(' ∷ 10 ∷ b'[' ∷ 39 ∷ b'a' ∷ b']' ∷ 32 ∷ b'b' ∷ []

read_commented : read_one commented ≡ Read.err Problem.trailing (b'b' ∷ [])
unfolding read_one
read_commented = refl

read_one-Answers_example : Answers commented (read_one commented)
read_one-Answers_example = read_one-Answers commented
