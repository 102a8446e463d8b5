-- ===== src/Base/Results.antt =====
-- Fallible code: `Result<A, E>`, the bind of `?`, and the inversion of a successful bind.
use mathlib.Core.Path.{◌≡◌, refl}
use mathlib.Core.List.{List, [], ◌∷◌, ◌++◌}
use mathlib.Core.Option.{Option, none, some}
use mathlib.Core.Logic.{◌⊎◌, inl, inr}

pub data Result (E A : Type 0) : Type 0 where
  ok : A → Result E A
  err : E → Result E A

-- What `?` does: go on with the value, or return the error.
infixl 5 ◌>>=◌ ◌>>◌
abbrev pub ◌>>=◌ : {E A B : Type 0} → Result E A → (A → Result E B) → Result E B
err e >>= next = err e
ok value >>= next = next value

abbrev pub ◌>>◌ : {E B : Type 0} → Result E (Unit {0}) → Result E B → Result E B
first >> rest = first >>= λ _. rest

-- `map_err`
abbrev pub map_err : {E F A : Type 0} → (E → F) → Result E A → Result F A
map_err f (ok a) = ok a
map_err f (err e) = err (f e)

-- `ok_or`
abbrev pub ok_or : {E A : Type 0} → Option A → E → Result E A
ok_or none e = err e
ok_or (some a) e = ok a

-- `iter().map(f).collect::<Result<Vec<_>, _>>()`: the first error, or every value.
abbrev pub traverse : {E A B : Type 0} → (A → Result E B) → List A → Result E (List B)
traverse f [] = ok []
traverse f (x ∷ xs) = f x >>= λ y. (traverse f xs >>= λ ys. ok (y ∷ ys))

pub Result-cases :
    {E A : Type 0} (r : Result E A) → ((a : A) × (r ≡ ok a)) ⊎ ((e : E) × (r ≡ err e))
Result-cases (ok a) = inl (a, refl)
Result-cases (err e) = inr (e, refl)

-- A chain that succeeds got through its first part.
pub >>=-eq-ok :
    {E A B : Type 0} (first : Result E A) (next : A → Result E B) {result : B}
    → (first >>= next) ≡ ok result
    → (value : A) × (first ≡ ok value) × (next value ≡ ok result)
>>=-eq-ok (err e) next through = cc
>>=-eq-ok (ok value) next through = (value, refl, through)

pub traverse-append :
    {E A B : Type 0} (f : A → Result E B) (xs ys : List A)
    → traverse f (xs ++ ys) ≡ (traverse f xs >>= λ a. (traverse f ys >>= λ b. ok (a ++ b)))
traverse-append f [] ys = elim (Result-cases (traverse f ys)) [
  | inl (b, e) ↦ rw e
  | inr (e, h) ↦ rw h
]
traverse-append f (x ∷ xs) ys =
    rw (traverse-append f xs ys) (step (f x) (traverse f xs) (traverse f ys))
  where
    step :
        {E B : Type 0} (r : Result E B) (q p : Result E (List B))
        → (r >>= λ y. ((q >>= λ a. (p >>= λ b. ok (a ++ b))) >>= λ ys'. ok (y ∷ ys')))
          ≡ ((r >>= λ y. (q >>= λ ys'. ok (y ∷ ys'))) >>= λ a. (p >>= λ b. ok (a ++ b)))
    step (ok y) (ok a) (ok b) = refl
    step (ok y) (ok a) (err e) = refl
    step (ok y) (err e) p = refl
    step (err e) q p = refl
