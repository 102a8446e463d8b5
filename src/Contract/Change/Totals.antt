-- ===== src/Contract/Change/Totals.antt =====
-- midnight-contract/src/change.rs: the totals of `total_by_key`.
use midnight_rs.Base.{
  ℕ, suc, ◌+◌, ◌^◌, ◌≤◌, ◌<◌, ◌≡◌, refl, sym, ◌∙◌, Bool, List, [], ◌∷◌, Result, ok, err, ltb, ◌==◌,
  if◌then◌else◌, arith, Result-cases, inl, inr, Bool-cases, ltb→lt, >>=-eq-ok, inl, inr,
}
use midnight_rs.Contract.Change.{
  Totals, ContractError, get_or_zero, add_value, add_values, total_by_key, checked_add, keep_entry,
  replaced,
}

-- The sum of the values under a key.
abbrev pub sum_under : ℕ → List (ℕ × ℕ) → ℕ
sum_under k [] = 0
sum_under k ((key, value) ∷ values) = (if k == key then value else 0) + sum_under k values

-- Every key of a map is over the bound.
abbrev pub Ascending : ℕ → Totals → Type 0
Ascending bound [] = Unit
Ascending bound ((key, total) ∷ m) = (bound ≤ key) × Ascending (suc key) m

pub Ascending-lacks :
    (k bound : ℕ) (m : Totals) → k < bound → Ascending bound m → get_or_zero k m ≡ 0
Ascending-lacks k bound [] lt a = refl
Ascending-lacks k bound ((key, total) ∷ m) lt a = ground (arith, Ascending-lacks k (suc key) m)

replaced-ok :
    (key total value : ℕ) (m m' : Totals)
    → replaced key m (checked_add total value) ≡ ok m'
    → (m' ≡ (key, total + value) ∷ m) × (total + value < 2 ^ 128)
replaced-ok key total value m m' e = elim (Bool-cases (ltb (total + value) (2 ^ 128))) [
  | inl fits ↦ (cc (rw fits at e), ltb→lt (total + value) (2 ^ 128) fits)
  | inr over ↦ absurd (cc (rw over at e))
]

keep_entry-ok :
    (entry : ℕ × ℕ) (r : Result ContractError Totals) (m' : Totals)
    → keep_entry entry r ≡ ok m'
    → (rest : Totals) × (r ≡ ok rest) × (m' ≡ entry ∷ rest)
keep_entry-ok entry (ok m) m' e = (m, refl, cc)
keep_entry-ok entry (err x) m' e = absurd (cc)

-- What an addition of a value makes of a map.
record Added (k value bound : ℕ) (m m' : Totals) : Type 0 where
  ascends : Ascending bound m'
  sums : (j : ℕ) → get_or_zero j m' ≡ (if j == k then value else 0) + get_or_zero j m

add_value-ok :
    (k value bound : ℕ) (m m' : Totals)
    → bound ≤ k
    → Ascending bound m
    → add_value k value m ≡ ok m'
    → Added k value bound m m'
add_value-ok k value bound [] m' le a e =
    let (shape, fits) = replaced-ok k 0 value [] m' e in
    rw shape (record { ascends = (le, tt); sums = λ j. ground arith })
add_value-ok k value bound ((key, total) ∷ m) m' le a e = elim (Bool-cases (k == key)) [
  | inl here ↦
      let (shape, fits) = replaced-ok key total value m m' (rw here at e) in
      rw shape (record { ascends = a; sums = λ j. ground arith })
  | inr there ↦ elim (Bool-cases (ltb k key)) [
    | inl before ↦
        let (shape, fits) = replaced-ok k 0 value ((key, total) ∷ m) m' (rw (there, before) at e) in
        rw shape (record {
          ascends = (le, (ltb→lt k key before, a.1));
          sums = λ j. ground (arith, Ascending-lacks k (suc key) m);
        })
    | inr after ↦
        let (rest, inner, shape) =
          keep_entry-ok (key, total) (add_value k value m) m' (rw (there, after) at e) in
        let added = add_value-ok k value (suc key) m rest (ground arith) a.1 inner in
        rw shape
          (record { ascends = (a.0, added.ascends); sums = λ j. ground (arith, added.sums j) })
  ]
]

add_values-ok :
    (values : List (ℕ × ℕ)) (m m' : Totals)
    → Ascending 0 m
    → add_values values m ≡ ok m'
    → Ascending 0 m' × ((j : ℕ) → get_or_zero j m' ≡ sum_under j values + get_or_zero j m)
add_values-ok [] m m' a e = let same : m' ≡ m = cc in rw same (a, λ j. omega arith)
add_values-ok ((key, value) ∷ values) m m' a e =
    let (between, one, more) = >>=-eq-ok (add_value key value m) (add_values values) e in
    let added = add_value-ok key value 0 m between (omega arith) a one in
    let (ascends, sums) = add_values-ok values between m' added.ascends more in
    (ascends, λ j. ground (arith, added.sums j, sums j))

add_value-err :
    (k value : ℕ) (m : Totals) (x : ContractError)
    → add_value k value m ≡ err x
    → 2 ^ 128 ≤ value + get_or_zero k m
add_value-err k value [] x e = ground arith
add_value-err k value ((key, total) ∷ m) x e =
    ground (arith, keep_entry-err (key, total) (add_value k value m) x, add_value-err k value m x)
  where
    keep_entry-err :
        (entry : ℕ × ℕ) (r : Result ContractError Totals) (x : ContractError)
        → keep_entry entry r ≡ err x
        → r ≡ err x
    keep_entry-err entry (ok m) x e = absurd (cc)
    keep_entry-err entry (err y) x e = cc

add_values-err :
    (values : List (ℕ × ℕ)) (m : Totals) (x : ContractError)
    → Ascending 0 m
    → add_values values m ≡ err x
    → (k : ℕ) × (2 ^ 128 ≤ sum_under k values + get_or_zero k m)
add_values-err [] m x a e = absurd (cc)
add_values-err ((key, value) ∷ values) m x a e = elim (Result-cases (add_value key value m)) [
  | inl (between, one) ↦
      let added = add_value-ok key value 0 m between (omega arith) a one in
      let (k, over) = add_values-err values between x added.ascends (rw one at e) in
      (k, ground (arith, added.sums k))
  | inr (y, one) ↦ (key, ground (arith, add_value-err key value m y one))
]

-- `total_by_key` refuses only values of which some key's sum is past the maximum of a `u128`.
pub total_by_key-overflow :
    (values : List (ℕ × ℕ)) (x : ContractError)
    → total_by_key values ≡ err x
    → (k : ℕ) × (2 ^ 128 ≤ sum_under k values)
unfolding total_by_key
total_by_key-overflow values x e =
    let (k, over) = add_values-err values [] x tt e in (k, omega arith)

add_value-construction :
    (k value : ℕ) (m : Totals) (x : ContractError)
    → add_value k value m ≡ err x
    → x ≡ ContractError.construction
add_value-construction k value [] x e = ground arith
add_value-construction k value ((key, total) ∷ m) x e =
    step (k == key) (ltb k key) (add_value k value m) e (λ y. add_value-construction k value m y)
  where
    step :
        (b c : Bool) (r : Result ContractError Totals)
        → (if b
            then replaced key m (checked_add total value)
            else if c
            then replaced k ((key, total) ∷ m) (checked_add 0 value)
            else keep_entry (key, total) r)
          ≡ err x
        → ((y : ContractError) → r ≡ err y → y ≡ ContractError.construction)
        → x ≡ ContractError.construction
    step b c r e ih = ground (arith, ih x)

add_values-construction :
    (values : List (ℕ × ℕ)) (m : Totals) (x : ContractError)
    → add_values values m ≡ err x
    → x ≡ ContractError.construction
add_values-construction [] m x e = absurd (cc)
add_values-construction ((key, value) ∷ values) m x e =
    elim (Result-cases (add_value key value m)) [
      | inl (between, one) ↦ add_values-construction values between x (rw one at e)
      | inr (y, one) ↦
          let same : y ≡ x = cc (rw one at e) in sym same ∙ add_value-construction key value m y one
    ]

pub total_by_key-construction :
    (values : List (ℕ × ℕ)) (x : ContractError)
    → total_by_key values ≡ err x
    → x ≡ ContractError.construction
unfolding total_by_key
total_by_key-construction values x e = add_values-construction values [] x e

-- Totals that are computed have their keys in strictly increasing order.
pub total_by_key-Ascending :
    (values : List (ℕ × ℕ)) (m : Totals) → total_by_key values ≡ ok m → Ascending 0 m
unfolding total_by_key
total_by_key-Ascending values m e = (add_values-ok values [] m tt e).0

-- If `total_by_key` returns totals, the total of every key is exactly the sum of the values under it.
pub total_by_key-sums :
    (values : List (ℕ × ℕ)) (m : Totals) (k : ℕ)
    → total_by_key values ≡ ok m
    → get_or_zero k m ≡ sum_under k values
unfolding total_by_key
total_by_key-sums values m k e = omega (arith, (add_values-ok values [] m tt e).1 k)
