-- ===== src/Contract/Maintenance/Members.antt =====
-- crates/midnight-contract/src/maintenance.rs: the members of a committee and their places.
use midnight_rs.Base.{
  ℕ, zero, suc, ◌≡◌, refl, ◌∙◌, ap, Bool, true, false, ◌&&◌, not, some, List, [], ◌∷◌, ◌++◌, ◌==◌,
  Result, ok, err, and-true, ==→eq, arith, Bool-cases, inl, inr,
}
use midnight_rs.Contract.Maintenance.{Refusal, contains, refuse_duplicates, get_elem?}

abbrev pub all_distinct : List ℕ → Bool
all_distinct [] = true
all_distinct (x ∷ xs) = not (contains xs x) && all_distinct xs

contains-append : (xs : List ℕ) (y x : ℕ) → contains xs x ≡ true → contains (xs ++ y ∷ []) x ≡ true
contains-append [] y x h = cc
contains-append (z ∷ xs) y x h = ground (arith, contains-append xs y x)

contains_last : (xs : List ℕ) (y : ℕ) → contains (xs ++ y ∷ []) y ≡ true
contains_last [] y = ground arith
contains_last (z ∷ xs) y = ground (arith, contains_last xs y)

-- What the loop over a committee accepts holds no member twice, and none of those before it.
pub refuse_duplicates-all_distinct :
    (before rest : List ℕ)
    → refuse_duplicates before rest ≡ ok tt
    → (all_distinct rest ≡ true) × ((x : ℕ) → contains before x ≡ true → contains rest x ≡ false)
refuse_duplicates-all_distinct before [] h = (refl, λ x hx. refl)
refuse_duplicates-all_distinct before (vk ∷ rest) h = elim (Bool-cases (contains before vk)) [
  | inl twice ↦ absurd (not_ok twice)
  | inr once ↦
      let (distinct, apart) =
        refuse_duplicates-all_distinct (before ++ vk ∷ []) rest (rw once at h) in
      (
        rw (apart vk (contains_last before vk)) distinct,
        λ x hx. no_head x hx once (apart x (contains-append before vk x hx)),
      )
]
  where
    not_ok : contains before vk ≡ true → ⊥
    not_ok twice = refused (rw twice at h)
      where
        refused : ◌≡◌ {A = Result Refusal Unit} (err Refusal.duplicate_member) (ok tt) → ⊥
        refused e = cc

    no_head :
        (x : ℕ)
        → contains before x ≡ true
        → contains before vk ≡ false
        → contains rest x ≡ false
        → contains (vk ∷ rest) x ≡ false
    no_head x hx once hr = elim (Bool-cases (vk == x)) [
      | inl e ↦ absurd (clash (ap (contains before) (==→eq vk x e)))
      | inr e ↦ rw e hr
    ]
      where
        clash : contains before vk ≡ contains before x → ⊥
        clash p = cc

some_same : (x y : ℕ) → some x ≡ some y → x ≡ y
some_same x y h = cc

pub ==_same : (x : ℕ) → (x == x) ≡ true
==_same x = ground arith

-- Members that differ stand at different places.
pub get_elem?-contains : (xs : List ℕ) (i x : ℕ) → get_elem? xs i ≡ some x → contains xs x ≡ true
get_elem?-contains [] i x h = cc
get_elem?-contains (y ∷ xs) zero x h = rw (some_same y x h, ==_same x)
get_elem?-contains (y ∷ xs) (suc i) x h = ground (arith, get_elem?-contains xs i x h)

-- The first member does not stand behind itself.
not_behind :
    (xs : List ℕ) (y j x : ℕ)
    → all_distinct (y ∷ xs) ≡ true
    → some y ≡ some x
    → get_elem? xs j ≡ some x
    → ⊥
not_behind xs y j x d hy hj =
    clash (contains xs y) here (and-true (not (contains xs y)) (all_distinct xs) d).0
  where
    here : contains xs y ≡ true
    here = ap (contains xs) (some_same y x hy) ∙ get_elem?-contains xs j x hj

    clash : (b : Bool) → b ≡ true → not b ≡ true → ⊥
    clash b h k = cc

pub get_elem?_same :
    (xs : List ℕ) (i j x : ℕ)
    → all_distinct xs ≡ true
    → get_elem? xs i ≡ some x
    → get_elem? xs j ≡ some x
    → i ≡ j
get_elem?_same [] i j x d hi hj = cc
get_elem?_same (y ∷ xs) zero zero x d hi hj = refl
get_elem?_same (y ∷ xs) zero (suc j) x d hi hj = absurd (not_behind xs y j x d hi hj)
get_elem?_same (y ∷ xs) (suc i) zero x d hi hj = absurd (not_behind xs y i x d hj hi)
get_elem?_same (y ∷ xs) (suc i) (suc j) x d hi hj =
    ap suc (get_elem?_same xs i j x (and-true (not (contains xs y)) (all_distinct xs) d).1 hi hj)
