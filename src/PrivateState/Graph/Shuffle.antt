-- ===== src/PrivateState/Graph/Shuffle.antt =====
-- Lists that differ in order alone: a directory lists a journal's files in an order of its own.
use midnight_rs.Base.{
  ℕ, suc, ◌≡◌, refl, ◌∙◌, ap, Bool, List, [], ◌∷◌, ◌++◌, map, arith, ◌||◌, if◌then◌else◌, any,
  retain, length, Bool-cases, inl, inr,
}

pub data Shuffles {A : Type 0} : List A → List A → Type 0 where
  nil : Shuffles [] []
  keep : (x : A) {xs ys : List A} → Shuffles xs ys → Shuffles (x ∷ xs) (x ∷ ys)
  swap : (x y : A) (xs : List A) → Shuffles (x ∷ y ∷ xs) (y ∷ x ∷ xs)
  trans : {xs ys zs : List A} → Shuffles xs ys → Shuffles ys zs → Shuffles xs zs

or_swap : (a b c : Bool) → (a || (b || c)) ≡ (b || (a || c))
or_swap a b c = ground arith

module _ {A : Type 0} where
  pub Shuffles-refl : (xs : List A) → Shuffles xs xs
  Shuffles-refl [] = Shuffles.nil
  Shuffles-refl (x ∷ xs) = Shuffles.keep x (Shuffles-refl xs)

  pub Shuffles-symm : {xs ys : List A} → Shuffles xs ys → Shuffles ys xs
  Shuffles-symm Shuffles.nil = Shuffles.nil
  Shuffles-symm (Shuffles.keep x p) = Shuffles.keep x (Shuffles-symm p)
  Shuffles-symm (Shuffles.swap x y xs) = Shuffles.swap y x xs
  Shuffles-symm (Shuffles.trans p q) = Shuffles.trans (Shuffles-symm q) (Shuffles-symm p)

  pub length-Shuffles : {xs ys : List A} → Shuffles xs ys → length xs ≡ length ys
  length-Shuffles Shuffles.nil = refl
  length-Shuffles (Shuffles.keep x p) = ap suc (length-Shuffles p)
  length-Shuffles (Shuffles.swap x y xs) = refl
  length-Shuffles (Shuffles.trans p q) = length-Shuffles p ∙ length-Shuffles q

  pub any-Shuffles : (p : A → Bool) {xs ys : List A} → Shuffles xs ys → any p xs ≡ any p ys
  any-Shuffles p Shuffles.nil = refl
  any-Shuffles p (Shuffles.keep x s) = ap (λ b. p x || b) (any-Shuffles p s)
  any-Shuffles p (Shuffles.swap x y xs) = or_swap (p x) (p y) (any p xs)
  any-Shuffles p (Shuffles.trans s t) = any-Shuffles p s ∙ any-Shuffles p t

  retain-swap :
      (p : A → Bool) (x y : A) (xs : List A)
      → Shuffles (retain p (x ∷ y ∷ xs)) (retain p (y ∷ x ∷ xs))
  retain-swap p x y xs = elim (Bool-cases (p x)) [
    | inl px ↦ elim (Bool-cases (p y)) [
      | inl py ↦ rw (px, py) (Shuffles.swap x y (retain p xs))
      | inr ny ↦ rw (px, ny) (Shuffles-refl (x ∷ retain p xs))
    ]
    | inr nx ↦ rw nx (Shuffles-refl (if p y then y ∷ retain p xs else retain p xs))
  ]

  pub retain-Shuffles :
      (p : A → Bool) {xs ys : List A} → Shuffles xs ys → Shuffles (retain p xs) (retain p ys)
  retain-Shuffles p Shuffles.nil = Shuffles.nil
  retain-Shuffles p (Shuffles.keep x s) = elim (Bool-cases (p x)) [
    | inl px ↦ rw px (Shuffles.keep x (retain-Shuffles p s))
    | inr nx ↦ rw nx (retain-Shuffles p s)
  ]
  retain-Shuffles p (Shuffles.swap x y xs) = retain-swap p x y xs
  retain-Shuffles p (Shuffles.trans s t) =
      Shuffles.trans (retain-Shuffles p s) (retain-Shuffles p t)

  empty_of_length : (xs : List A) → length xs ≡ 0 → xs ≡ []
  empty_of_length [] h = refl
  empty_of_length (x ∷ xs) h = absurd (omega arith)

  pub Shuffles-nil : {xs ys : List A} → Shuffles xs ys → ys ≡ [] → xs ≡ []
  Shuffles-nil {xs} s e = empty_of_length xs (length-Shuffles s ∙ ap length e)

  -- One element has one order.
  pub Shuffles-single : {xs ys : List A} (y : A) → Shuffles xs ys → ys ≡ y ∷ [] → xs ≡ y ∷ []
  Shuffles-single y Shuffles.nil e = e
  Shuffles-single y (Shuffles.keep x s) e =
      let same : x ≡ y = cc in rw same (ap (λ l. y ∷ l) (Shuffles-nil s (cc)))
  Shuffles-single y (Shuffles.swap x z xs) e = cc
  Shuffles-single y (Shuffles.trans s t) e = Shuffles-single y s (Shuffles-single y t e)

  -- A new element stands anywhere.
  abbrev pub insert_at : ℕ → A → List A → List A
  insert_at ℕ.zero x xs = x ∷ xs
  insert_at (suc n) x [] = x ∷ []
  insert_at (suc n) x (y ∷ ys) = y ∷ insert_at n x ys

  pub insert_at-Shuffles : (n : ℕ) (x : A) (xs : List A) → Shuffles (insert_at n x xs) (x ∷ xs)
  insert_at-Shuffles ℕ.zero x xs = Shuffles-refl (x ∷ xs)
  insert_at-Shuffles (suc n) x [] = Shuffles-refl (x ∷ [])
  insert_at-Shuffles (suc n) x (y ∷ ys) =
      Shuffles.trans (Shuffles.keep y (insert_at-Shuffles n x ys)) (Shuffles.swap y x ys)

  pub append-Shuffles : (x : A) (xs : List A) → Shuffles (x ∷ xs) (xs ++ (x ∷ []))
  append-Shuffles x [] = Shuffles-refl (x ∷ [])
  append-Shuffles x (y ∷ ys) =
      Shuffles.trans (Shuffles.swap x y ys) (Shuffles.keep y (append-Shuffles x ys))

  pub map-Shuffles :
      {B : Type 0} (f : A → B) {xs ys : List A} → Shuffles xs ys → Shuffles (map f xs) (map f ys)
  map-Shuffles f Shuffles.nil = Shuffles.nil
  map-Shuffles f (Shuffles.keep x s) = Shuffles.keep (f x) (map-Shuffles f s)
  map-Shuffles f (Shuffles.swap x y xs) = Shuffles.swap (f x) (f y) (map f xs)
  map-Shuffles f (Shuffles.trans s t) = Shuffles.trans (map-Shuffles f s) (map-Shuffles f t)
