-- ===== src/Contract/Change/Due.antt =====
-- midnight-contract/src/change.rs: `change_due` and `refuse_shortfall` on the totals of an offer.
use midnight_rs.Base.{
  ℕ, suc, ◌+◌, ◌-◌, ◌≤◌, ◌<◌, ◌≡◌, refl, sym, ◌∙◌, List, [], ◌∷◌, Result, ok, err, ltb, arith, ◌≢◌,
  Bool-cases, Result-cases, ltb→lt, >>=-eq-ok, inl, inr, All,
}
use midnight_rs.Contract.Change.{
  Totals, ContractError, get_or_zero, total_by_key, owed_entry, change_due, refuse_shortfall,
  offer_change,
}
use midnight_rs.Contract.Change.Totals.{
  sum_under, Ascending, Ascending-lacks, total_by_key-Ascending, total_by_key-sums,
  total_by_key-construction,
}

Ascending-weaken : (a b : ℕ) (m : Totals) → a ≤ b → Ascending b m → Ascending a m
Ascending-weaken a b [] le h = tt
Ascending-weaken a b ((key, total) ∷ m) le h = (omega (arith, h.0), h.1)

owed_entry-Ascending :
    (bound key attached uncovered : ℕ) (change : Totals)
    → bound ≤ key
    → Ascending (suc key) change
    → Ascending bound (owed_entry key attached uncovered change)
owed_entry-Ascending bound key attached uncovered change le a =
    ground (arith, Ascending-weaken bound (suc key) change)

change_due-Ascending :
    (bound : ℕ) (attached drawn minted : Totals)
    → Ascending bound attached
    → Ascending bound (change_due attached drawn minted)
unfolding change_due
change_due-Ascending bound [] drawn minted a = tt
change_due-Ascending bound ((key, total) ∷ m) drawn minted a =
    owed_entry-Ascending bound key total _ _ a.0 (change_due-Ascending (suc key) m drawn minted a.1)

due_from :
    (bound : ℕ) (attached drawn minted : Totals) (k : ℕ)
    → Ascending bound attached
    → get_or_zero k (change_due attached drawn minted)
      ≡ get_or_zero k attached - (get_or_zero k drawn - get_or_zero k minted)
unfolding change_due
due_from bound [] drawn minted k a = omega arith
due_from bound ((key, total) ∷ m) drawn minted k a =
    let rest = change_due m drawn minted in
    ground (
      arith,
      due_from (suc key) m drawn minted k a.1,
      Ascending-lacks key (suc key) rest (omega arith)
          (change_due-Ascending (suc key) m drawn minted a.1),
    )

-- Where the attached totals have increasing keys, the change of every key is what is attached beyond
-- what is drawn and not covered by a mint, and nothing where that is more than what is attached.
pub change_due-surplus :
    (attached drawn minted : Totals) (k : ℕ)
    → Ascending 0 attached
    → get_or_zero k (change_due attached drawn minted)
      ≡ get_or_zero k attached - (get_or_zero k drawn - get_or_zero k minted)
change_due-surplus attached drawn minted k a = due_from 0 attached drawn minted k a

-- Every change output has a value.
pub change_due-positive :
    (attached drawn minted : Totals) → All (λ e. 0 < e.1) (change_due attached drawn minted)
unfolding change_due
change_due-positive [] drawn minted = tt
change_due-positive ((key, total) ∷ m) drawn minted =
    ground (arith, change_due-positive m drawn minted)

sum_under-Ascending :
    (k bound : ℕ) (m : Totals) → Ascending bound m → sum_under k m ≡ get_or_zero k m
sum_under-Ascending k bound [] a = refl
sum_under-Ascending k bound ((key, total) ∷ m) a =
    ground (arith, sum_under-Ascending k (suc key) m a.1, Ascending-lacks k (suc key) m)

covered_from :
    (bound : ℕ) (held paid : Totals) (k : ℕ)
    → Ascending bound paid
    → refuse_shortfall held paid ≡ ok tt
    → get_or_zero k paid ≤ get_or_zero k held
unfolding refuse_shortfall
covered_from bound held [] k a e = omega arith
covered_from bound held ((token_type, paid) ∷ m) k a e =
    ground (arith, covered_from (suc token_type) held m k a.1)

-- If an offer is accepted, then of every token the values of its coins are exactly the values of its
-- payments and of the change.
pub offer_change-balances :
    (coins payments change : List (ℕ × ℕ)) (k : ℕ)
    → offer_change coins payments ≡ ok change
    → sum_under k coins ≡ sum_under k payments + sum_under k change
unfolding offer_change
offer_change-balances coins payments change k e =
    let (held, h, e1) = >>=-eq-ok (total_by_key coins) _ e in
    let (paid, p, e2) = >>=-eq-ok (total_by_key payments) _ e1 in
    let (_, covered, e3) = >>=-eq-ok (refuse_shortfall held paid) _ e2 in
    let ha = total_by_key-Ascending coins held h in
    let made : change ≡ change_due held paid [] = cc in
    let due = change_due-surplus held paid [] k ha in
    let le = covered_from 0 held paid k (total_by_key-Ascending payments paid p) covered in
    let spent = sum_under-Ascending k 0 _ (change_due-Ascending 0 held paid [] ha) in
    rw made (
      omega (
        arith,
        total_by_key-sums coins held k h,
        total_by_key-sums payments paid k p,
        due,
        le,
        spent,
      ))

shortfall-eq :
    {A : Type 0} (a b c t h p : ℕ)
    → Path
        (Result ContractError A)
        (err (ContractError.shielded_offer_shortfall c a b))
        (err (ContractError.shielded_offer_shortfall t h p))
    → (c ≡ t) × (a ≡ h) × (b ≡ p)
shortfall-eq a b c t h p e = (cc, cc, cc)

construction-shortfall :
    (t h p : ℕ) → ContractError.construction ≢ ContractError.shielded_offer_shortfall t h p
construction-shortfall t h p e = cc

refuse_shortfall-err :
    (bound : ℕ) (held paid : Totals) (t h p : ℕ)
    → Ascending bound paid
    → refuse_shortfall held paid ≡ err (ContractError.shielded_offer_shortfall t h p)
    → (h ≡ get_or_zero t held) × (p ≡ get_or_zero t paid) × (h < p) × (bound ≤ t)
unfolding refuse_shortfall
refuse_shortfall-err bound held [] t h p a e = absurd (cc)
refuse_shortfall-err bound held ((token_type, paid) ∷ m) t h p a e =
    elim (Bool-cases (ltb (get_or_zero token_type held) paid)) [
      | inl short ↦
          let (t_eq, h_eq, p_eq) =
            shortfall-eq (get_or_zero token_type held) paid token_type t h p (rw short at e) in
          rw (← t_eq, ← h_eq, ← p_eq) (refl, ground arith, ltb→lt _ _ short, a.0)
      | inr enough ↦
          let (h_eq, p_eq, lt, above) =
            refuse_shortfall-err (suc token_type) held m t h p a.1 (rw enough at e) in
          (h_eq, ground arith, lt, omega (arith, a.0))
    ]

-- A shortfall that refuses an offer names a token of which the coins hold less than the payments, with
-- the sums of both.
pub offer_change-shortfall :
    (coins payments : List (ℕ × ℕ)) (t held paid : ℕ)
    → offer_change coins payments ≡ err (ContractError.shielded_offer_shortfall t held paid)
    → (held ≡ sum_under t coins) × (paid ≡ sum_under t payments) × (held < paid)
unfolding offer_change
offer_change-shortfall coins payments t held paid e = elim (Result-cases (total_by_key coins)) [
  | inr (x, h) ↦ absurd (refused coins x h (rw h at e))
  | inl (hs, h) ↦ elim (Result-cases (total_by_key payments)) [
    | inr (x, p) ↦ absurd (refused payments x p (rw (h, p) at e))
    | inl (ps, p) ↦ elim (Result-cases (refuse_shortfall hs ps)) [
      | inl (_, covered) ↦ absurd (cc (rw (h, p, covered) at e))
      | inr (x, short) ↦
          let same = rw (h, p, short) at e in
          let (h_eq, p_eq, lt, _) =
            refuse_shortfall-err 0 hs ps t held paid (total_by_key-Ascending payments ps p)
              (short ∙ cc) in
          (h_eq ∙ total_by_key-sums coins hs t h, p_eq ∙ total_by_key-sums payments ps t p, lt)
    ]
  ]
]
  where
    refused :
        {A : Type 0} (values : List (ℕ × ℕ)) (x : ContractError)
        → total_by_key values ≡ err x
        → Path
            (Result ContractError A)
            (err x)
            (err (ContractError.shielded_offer_shortfall t held paid))
        → ⊥
    refused values x h e =
        construction-shortfall t held paid (sym (total_by_key-construction values x h) ∙ cc)
