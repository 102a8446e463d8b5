-- ===== src/Contract/Maintenance/Committee.antt =====
-- crates/midnight-contract/src/maintenance.rs: committees and sets of signatures that are accepted.
use native.Mathlib.Nat.{mod-le}
use midnight_rs.Base.{
  ℕ, suc, ◌%◌, ◌^◌, ◌≤◌, ◌<◌, ◌≡◌, refl, subst, ◌∙◌, ap, Bool, true, false, ◌||◌, some, List, [],
  ◌∷◌, ltb, ◌==◌, if◌then◌else◌, is_empty, any, All, length, Result, ok, err, >>=-eq-ok, ==→eq,
  arith, Bool-cases, Option-cases, inl, inr,
}
use midnight_rs.Contract.Maintenance.{
  Refusal, contains, validate_committee, get_elem?, check_each, validate_signatures,
}
use midnight_rs.Contract.Maintenance.Members.{
  all_distinct, refuse_duplicates-all_distinct, get_elem?-contains, get_elem?_same, ==_same,
}

-- The members at the indices, each of which has signed.
abbrev MembersAt : List ℕ → (ℕ → Bool) → List ℕ → List ℕ → Type 0
MembersAt committee signed [] [] = Unit
MembersAt committee signed [] (k ∷ ks) = ⊥
MembersAt committee signed (i ∷ indices) [] = ⊥
MembersAt committee signed (i ∷ indices) (k ∷ ks) =
    (get_elem? committee i ≡ some k) × (signed k ≡ true) × MembersAt committee signed indices ks

MembersAt-length :
    (committee : List ℕ) (signed : ℕ → Bool) (indices keys : List ℕ)
    → MembersAt committee signed indices keys
    → length keys ≡ length indices
MembersAt-length committee signed [] [] m = refl
MembersAt-length committee signed [] (k ∷ ks) m = absurd m
MembersAt-length committee signed (i ∷ indices) [] m = absurd m
MembersAt-length committee signed (i ∷ indices) (k ∷ ks) (at, s, m) =
    ap suc (MembersAt-length committee signed indices ks m)

MembersAt-All :
    (committee : List ℕ) (signed : ℕ → Bool) (indices keys : List ℕ)
    → MembersAt committee signed indices keys
    → All (λ k. (contains committee k ≡ true) × (signed k ≡ true)) keys
MembersAt-All committee signed [] [] m = tt
MembersAt-All committee signed [] (k ∷ ks) m = absurd m
MembersAt-All committee signed (i ∷ indices) [] m = absurd m
MembersAt-All committee signed (i ∷ indices) (k ∷ ks) (at, s, m) =
    ((get_elem?-contains committee i k at, s), MembersAt-All committee signed indices ks m)

-- An index that was not seen has a member that did not sign yet.
MembersAt-contains :
    (committee : List ℕ) (signed : ℕ → Bool) (indices keys : List ℕ) (i k : ℕ)
    → all_distinct committee ≡ true
    → MembersAt committee signed indices keys
    → get_elem? committee i ≡ some k
    → contains keys k ≡ true
    → contains indices i ≡ true
MembersAt-contains committee signed [] [] i k d m at h = cc
MembersAt-contains committee signed [] (k' ∷ ks) i k d m at h = absurd m
MembersAt-contains committee signed (j ∷ indices) [] i k d m at h = absurd m
MembersAt-contains committee signed (j ∷ indices) (k' ∷ ks) i k d (at', s, m) at h =
    elim (Bool-cases (k' == k)) [
      | inl e ↦ rw (get_elem?_same committee j i k d (at' ∙ ap some (==→eq k' k e)) at, ==_same i)
      | inr e ↦
          or_right (j == i) (MembersAt-contains committee signed indices ks i k d m at (rw e at h))
    ]
  where
    or_right : (b : Bool) {c : Bool} → c ≡ true → (b || c) ≡ true
    or_right true h = refl
    or_right false h = h

-- What the loop gives: members that differ, as many as there are indices seen.
record Signers (committee : List ℕ) (signed : ℕ → Bool) (seen : List ℕ) : Type 0 where
  pub keys : List ℕ
  pub members : MembersAt committee signed seen keys
  pub distinct : all_distinct keys ≡ true

ok_same : {A : Type 0} (x y : A) → ◌≡◌ {A = Result Refusal A} (ok x) (ok y) → x ≡ y
ok_same x y h = cc

pub refused : {A : Type 0} (e : Refusal) (x : A) → ◌≡◌ {A = Result Refusal A} (err e) (ok x) → ⊥
refused e x h = cc

any_head :
    (verifies : ℕ → ℕ → Bool) (k idx sig : ℕ) (sigs : List (ℕ × ℕ))
    → verifies k sig ≡ true
    → any (λ s. verifies k s.1) ((idx, sig) ∷ sigs) ≡ true
any_head verifies k idx sig sigs h = rw h

any_tail :
    (verifies : ℕ → ℕ → Bool) (k idx sig : ℕ) (sigs : List (ℕ × ℕ))
    → any (λ s. verifies k s.1) sigs ≡ true
    → any (λ s. verifies k s.1) ((idx, sig) ∷ sigs) ≡ true
any_tail verifies k idx sig sigs h = elim (Bool-cases (verifies k sig)) [
  | inl e ↦ rw e
  | inr e ↦ rw (e, h)
]

sign :
    (committee : List ℕ) (signed : ℕ → Bool) (seen : List ℕ) (idx k : ℕ)
    → all_distinct committee ≡ true
    → get_elem? committee idx ≡ some k
    → signed k ≡ true
    → contains seen idx ≡ false
    → Signers committee signed seen
    → Signers committee signed (idx ∷ seen)
sign committee signed seen idx k d place s new before = record {
  keys = k ∷ before.keys;
  members = (place, s, before.members);
  distinct = rw (apart) before.distinct;
}
  where
    clash : contains seen idx ≡ true → contains seen idx ≡ false → ⊥
    clash h h' = cc

    apart : contains before.keys k ≡ false
    apart = elim (Bool-cases (contains before.keys k)) [
      | inl h ↦ absurd (
          clash
            (MembersAt-contains committee signed seen before.keys idx k d before.members place h)
            new)
      | inr h ↦ h
    ]

check_each-Signers :
    (verifies : ℕ → ℕ → Bool) (committee : List ℕ) (signed : ℕ → Bool) (sigs : List (ℕ × ℕ))
    (seen result : List ℕ)
    → all_distinct committee ≡ true
    → ((k : ℕ) → any (λ s. verifies k s.1) sigs ≡ true → signed k ≡ true)
    → Signers committee signed seen
    → check_each verifies committee seen sigs ≡ ok result
    → Signers committee signed result
check_each-Signers verifies committee signed [] seen result d covered before h =
    subst (Signers committee signed) (ok_same seen result h) before
check_each-Signers verifies committee signed ((idx, sig) ∷ sigs) seen result d covered before h =
    elim (Option-cases (get_elem? committee idx)) [
      | inl out ↦ absurd (refused Refusal.index_outside result (rw (check_each, out) at h))
      | inr (k, place) ↦ elim (Bool-cases (contains seen idx)) [
        | inl twice ↦
            absurd (refused Refusal.duplicate_index result (rw (check_each, place, twice) at h))
        | inr new ↦ elim (Bool-cases (verifies k sig)) [
          | inr bad ↦
              absurd (refused Refusal.bad_signature result (rw (check_each, place, new, bad) at h))
          | inl good ↦
              check_each-Signers verifies committee signed sigs (idx ∷ seen) result d
                (λ k' more. covered k' (any_tail verifies k' idx sig sigs more))
                (sign committee signed seen idx k d place
                  (covered k (any_head verifies k idx sig sigs good)) new before)
                (rw (check_each, place, new, good) at h)
        ]
      ]
    ]

ltb-false : (a b : ℕ) → ltb a b ≡ false → b ≤ a
ltb-false a b h = ground arith

-- A threshold that is reached is reached by as many members.
reached :
    (n threshold : ℕ)
    → (if ltb (n % 2 ^ 32) threshold then err Refusal.too_few else ok tt) ≡ ok tt
    → threshold ≤ n
reached n threshold h = elim (Bool-cases (ltb (n % 2 ^ 32) threshold)) [
  | inl few ↦ absurd (refused Refusal.too_few tt (rw few at h))
  | inr enough ↦ within (2 ^ 32) enough
]
  where
    within : (m : ℕ) → ltb (n % m) threshold ≡ false → threshold ≤ n
    within m e = omega (arith, ltb-false (n % m) threshold e, mod-le n m)

pub validate_committee-all_distinct :
    (committee : List ℕ) (threshold : ℕ)
    → validate_committee committee threshold ≡ ok tt
    → (0 < threshold) × (threshold ≤ length committee) × (all_distinct committee ≡ true)
unfolding validate_committee
validate_committee-all_distinct committee threshold h = elim (Bool-cases (is_empty committee)) [
  | inl none_there ↦ absurd (refused Refusal.no_member tt (rw none_there at h))
  | inr some_there ↦ elim (Bool-cases (threshold == 0)) [
    | inl zero_there ↦ absurd (refused Refusal.zero_threshold tt (rw (some_there, zero_there) at h))
    | inr pos ↦ elim (Bool-cases (ltb (length committee) threshold)) [
      | inl high ↦ absurd (refused Refusal.threshold_too_high tt (rw (some_there, pos, high) at h))
      | inr fits ↦ (
        ground arith,
        ltb-false (length committee) threshold fits,
        (refuse_duplicates-all_distinct [] committee (rw (some_there, pos, fits) at h)).0,
      )
    ]
  ]
]

-- When a committee and its threshold are accepted at a deploy or a replacement, and a set of
-- signatures is accepted for them, then at least one member, and no fewer members than the
-- threshold, all different, have each a signature in the set that verifies under the member's key.
pub validate_signatures_threshold :
    (verifies : ℕ → ℕ → Bool) (committee : List ℕ) (threshold : ℕ) (signatures : List (ℕ × ℕ))
    → validate_committee committee threshold ≡ ok tt
    → validate_signatures verifies committee signatures threshold ≡ ok tt
    → (keys : List ℕ) × (all_distinct keys ≡ true)
      × All
          (λ k. (contains committee k ≡ true) × (any (λ s. verifies k s.1) signatures ≡ true))
          keys
      × (0 < threshold)
      × (threshold ≤ length keys)
unfolding validate_signatures
validate_signatures_threshold verifies committee threshold signatures hc hs =
    let (pos, fits, distinct) = validate_committee-all_distinct committee threshold hc in
    let (seen, loop, enough) = >>=-eq-ok (check_each verifies committee [] signatures) _ hs in
    let s =
      check_each-Signers verifies committee (λ k. any (λ s. verifies k s.1) signatures) signatures
        [] seen distinct (λ k h. h) (record { keys = []; members = tt; distinct = refl }) loop in
    (
      s.keys,
      s.distinct,
      MembersAt-All committee (λ k. any (λ s. verifies k s.1) signatures) seen s.keys s.members,
      pos,
      omega (
        arith,
        reached (length seen) threshold enough,
        MembersAt-length committee (λ k. any (λ s. verifies k s.1) signatures) seen s.keys
            s.members,
      ),
    )
