-- ===== src/Ir/Sexp/Starts.antt =====
-- What a datum or an item of a list starts with, and what is left behind it.
use midnight_rs.Base.{
  ℕ, suc, ◌<◌, Bool, true, false, ◌&&◌, Option, none, some, List, [], ◌∷◌, ◌==◌, if◌then◌else◌,
  length, arith, Bool-cases, inl, inr,
}
use midnight_rs.Ir.Datum.{Sexp, Sexps, bool, nil, cons, Read, Problem}
use midnight_rs.Ir.Atoms.{strip_prefix, read_bytes, hash_t, hash_f, hash_vu8, read_hash}
use midnight_rs.Ir.Sexp.{
  is_open, is_close, Start, start_of, is_lone, Next, next_of, pair_of, close_pair,
}
use midnight_rs.Ir.Sexp.Progress.{Ends, Ends-wider, read_bytes-Ends}

-- What is left behind a byte that was looked at.
abbrev LeftOf : ℕ → Option (List ℕ) → Type 0
LeftOf n none = Unit
LeftOf n (some rest) = length rest < n

strip_prefix-LeftOf : (p : ℕ) (ps cs : List ℕ) → LeftOf (length cs) (strip_prefix (p ∷ ps) cs)
strip_prefix-LeftOf p ps [] = tt
strip_prefix-LeftOf p [] (c ∷ cs) = elim (Bool-cases (p == c)) [
  | inl e ↦ rw e (omega arith)
  | inr e ↦ rw e tt
]
strip_prefix-LeftOf p (q ∷ ps) (c ∷ cs) = elim (Bool-cases (p == c)) [
  | inl e ↦ rw e (LeftOf_weaken (strip_prefix (q ∷ ps) cs) (strip_prefix-LeftOf q ps cs))
  | inr e ↦ rw e tt
]
  where
    LeftOf_weaken : (o : Option (List ℕ)) → LeftOf (length cs) o → LeftOf (suc (length cs)) o
    LeftOf_weaken none h = tt
    LeftOf_weaken (some rest) h = omega arith

pub read_hash-Ends : (f : ℕ) (cs : List ℕ) → length cs < f → Ends (length cs) (read_hash f cs)
unfolding read_hash
read_hash-Ends f cs h =
    at_prefixes (strip_prefix hash_t cs) (strip_prefix hash_f cs) (strip_prefix hash_vu8 cs)
      (strip_prefix-LeftOf b'#' (b't' ∷ []) cs) (strip_prefix-LeftOf b'#' (b'f' ∷ []) cs)
      (strip_prefix-LeftOf b'#' (b'v' ∷ b'u' ∷ b'8' ∷ b'(' ∷ []) cs)
  where
    at_prefixes :
        (t u v : Option (List ℕ))
        → LeftOf (length cs) t
        → LeftOf (length cs) u
        → LeftOf (length cs) v
        → Ends (length cs) (elim t [
          | some rest ↦ Read.ok (bool true) rest
          | none ↦ elim u [
            | some rest ↦ Read.ok (bool false) rest
            | none ↦ elim v [
              | some rest ↦ read_bytes f [] rest
              | none ↦ Read.err Problem.unknown_hash cs
            ]
          ]
        ])
    at_prefixes (some rest) u v ht hu hv = ht
    at_prefixes none (some rest) v ht hu hv = hu
    at_prefixes none none (some rest) ht hu hv =
        Ends-wider (length rest) (length cs) (read_bytes f [] rest) (omega arith)
          (read_bytes-Ends f [] rest (omega arith))
    at_prefixes none none none ht hu hv = omega arith

if_both {ℓ κ} :
    {A : Type ℓ} (P : A → Type κ) (b : Bool) (x y : A) → P x → P y → P (if b then x else y)
if_both P true x y px py = px
if_both P false x y px py = py

abbrev pub StartLeft : ℕ → Start → Type 0
StartLeft n (Start.opening rest) = length rest < n
StartLeft n (Start.quoting rest) = length rest < n
StartLeft n (Start.quotes rest) = length rest < n
StartLeft n Start.hash = 0 < n
StartLeft n _ = Unit

pub start_of-StartLeft : (cs : List ℕ) → StartLeft (length cs) (start_of cs)
start_of-StartLeft [] = tt
start_of-StartLeft (c ∷ cs) = if_both (StartLeft (suc (length cs))) (is_open c) _ _ (omega arith) (
    if_both (StartLeft (suc (length cs))) (is_close c) _ _ tt (
      if_both (StartLeft (suc (length cs))) (c == 39) _ _ (omega arith) (
        if_both (StartLeft (suc (length cs))) (c == 34) _ _ (omega arith)
          (if_both (StartLeft (suc (length cs))) (c == b'#') _ _ (omega arith) tt))))

abbrev pub NextLeft : ℕ → Next → Type 0
NextLeft n (Next.closing rest) = length rest < n
NextLeft n (Next.dot rest) = length rest < n
NextLeft n _ = Unit

pub next_of-NextLeft : (cs : List ℕ) → NextLeft (length cs) (next_of cs)
next_of-NextLeft [] = tt
next_of-NextLeft (c ∷ cs) =
    if_both (NextLeft (suc (length cs))) (is_close c) _ _ (omega arith)
      (if_both (NextLeft (suc (length cs))) (c == b'.' && is_lone cs) _ _ (omega arith) tt)

pair_of-Ends :
    (items : Sexps) (tail : Sexp) (rest : List ℕ)
    → Ends (suc (length rest)) (pair_of items tail rest)
pair_of-Ends nil tail rest = omega arith
pair_of-Ends (cons car nil) tail rest = omega arith
pair_of-Ends (cons car (cons s ss)) tail rest = omega arith

pub close_pair-Ends :
    (items : Sexps) (tail : Sexp) (cs : List ℕ) → Ends (length cs) (close_pair items tail cs)
close_pair-Ends items tail [] = omega arith
close_pair-Ends items tail (c ∷ cs) =
    if_both (Ends (suc (length cs))) (is_close c) _ _ (pair_of-Ends items tail cs) (omega arith)
