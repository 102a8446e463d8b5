-- ===== src/Contract/Maintenance/Quorum.antt =====
-- crates/midnight-contract/src/maintenance.rs: sets of signatures that are a quorum.
use native.Mathlib.Nat.{mod-eq_of_lt}
use midnight_rs.Base.{
  ℕ, ◌+◌, ◌^◌, ◌≤◌, ◌<◌, ◌≡◌, refl, ◌∙◌, ap, Bool, true, false, ◌||◌, not, some, List, [], ◌∷◌, ltb,
  ◌==◌, All, length, ok, and-true, ==→eq, arith, Bool-cases, inl, inr,
}
use midnight_rs.Contract.Maintenance.{contains, get_elem?, check_each, validate_signatures}
use midnight_rs.Contract.Maintenance.Members.{all_distinct}

abbrev pub indices : List (ℕ × ℕ) → List ℕ
indices [] = []
indices ((i, sig) ∷ sigs) = i ∷ indices sigs

-- The member at the index made the signature.
abbrev pub SignedBy : (ℕ → ℕ → Bool) → List ℕ → ℕ × ℕ → Type 0
SignedBy verifies committee s =
    (k : ℕ) × (get_elem? committee s.0 ≡ some k) × (verifies k s.1 ≡ true)

-- An index that is not seen yet, and is not the first, is not seen with the first either.
unseen :
    (i : ℕ) (rest seen : List ℕ) (j : ℕ)
    → not (contains rest i) ≡ true
    → contains rest j ≡ true
    → contains seen j ≡ false
    → contains (i ∷ seen) j ≡ false
unseen i rest seen j alone there old = elim (Bool-cases (i == j)) [
  | inl e ↦ absurd (clash (contains rest i) alone (ap (contains rest) (==→eq i j e) ∙ there))
  | inr e ↦ rw (e, old)
]
  where
    clash : (b : Bool) → not b ≡ true → b ≡ true → ⊥
    clash b h k = cc

or_right : (b c : Bool) → c ≡ true → (b || c) ≡ true
or_right true c h = refl
or_right false c h = h

==_self : (i : ℕ) → (i == i) ≡ true
==_self i = ground arith

check_each_ok :
    (verifies : ℕ → ℕ → Bool) (committee : List ℕ) (sigs : List (ℕ × ℕ)) (seen : List ℕ)
    → All (SignedBy verifies committee) sigs
    → all_distinct (indices sigs) ≡ true
    → ((j : ℕ) → contains (indices sigs) j ≡ true → contains seen j ≡ false)
    → (result : List ℕ) × (check_each verifies committee seen sigs ≡ ok result)
      × (length result ≡ length sigs + length seen)
check_each_ok verifies committee [] seen signed distinct apart = (seen, refl, omega arith)
check_each_ok verifies committee ((i, sig) ∷ sigs) seen ((k, place, good), signed) distinct apart =
    let (alone, others) =
      and-true (not (contains (indices sigs) i)) (all_distinct (indices sigs)) distinct in
    let (result, ran, many) =
      check_each_ok verifies committee sigs (i ∷ seen) signed others (λ j there.
        unseen i (indices sigs) seen j alone there
          (apart j (or_right (i == j) (contains (indices sigs) j) there))) in
    let new = apart i (rw (==_self i)) in
    (result, rw (check_each, place, new, good) ran, omega (arith, many))

leb_not_ltb : (a b : ℕ) → b ≤ a → ltb a b ≡ false
leb_not_ltb a b h = ground arith

-- When the signatures name different members, each in the committee and each by a signature that
-- verifies under the member's key, and are no fewer than the threshold, they are accepted; there are
-- fewer than 2 ^ 32 of them, which is what their count is taken in.
pub validate_signatures_quorum :
    (verifies : ℕ → ℕ → Bool) (committee : List ℕ) (threshold : ℕ) (sigs : List (ℕ × ℕ))
    → All (SignedBy verifies committee) sigs
    → all_distinct (indices sigs) ≡ true
    → threshold ≤ length sigs
    → length sigs < 2 ^ 32
    → validate_signatures verifies committee sigs threshold ≡ ok tt
unfolding validate_signatures
validate_signatures_quorum verifies committee threshold sigs signed distinct enough small =
    let (result, ran, many) =
      check_each_ok verifies committee sigs [] signed distinct (λ j there. refl) in
    rw (
      ran,
      mod-eq_of_lt (fewer (length result) many),
      leb_not_ltb (length result) threshold (omega (arith, many)),
    )
  where
    fewer : (n : ℕ) → n ≡ length sigs + 0 → n < 2 ^ 32
    fewer n e = omega arith
