-- ===== src/Contract/Change/Tests.antt =====
-- An offer that spends three coins of two tokens, and one that is short.
use midnight_rs.Base.{ℕ, ◌+◌, ◌-◌, ◌^◌, ◌<◌, ◌≡◌, refl, List, [], ◌∷◌}
use midnight_rs.Contract.Change.{
  get_or_zero, total_by_key, change_due, refuse_shortfall, offer_change,
}
use midnight_rs.Contract.Change.Totals.{sum_under, total_by_key-sums}
use midnight_rs.Contract.Change.Due.{offer_change-balances, offer_change-shortfall}

abbrev coins : List (ℕ × ℕ)
coins = (2, 7) ∷ (1, 10) ∷ (2, 5) ∷ []

abbrev payments : List (ℕ × ℕ)
payments = (2, 9) ∷ []

total_by_key-sums_example : get_or_zero 2 ((1, 10) ∷ (2, 12) ∷ []) ≡ sum_under 2 coins
unfolding total_by_key
total_by_key-sums_example = total_by_key-sums coins ((1, 10) ∷ (2, 12) ∷ []) 2 refl

abbrev too_much : List (ℕ × ℕ)
too_much = (1, 2 ^ 128 - 1) ∷ (1, 1) ∷ []

offer_change-balances_example :
    sum_under 2 coins ≡ sum_under 2 payments + sum_under 2 ((1, 10) ∷ (2, 3) ∷ [])
unfolding offer_change total_by_key refuse_shortfall change_due
offer_change-balances_example = offer_change-balances coins payments ((1, 10) ∷ (2, 3) ∷ []) 2 refl

offer_change-shortfall_example :
    (12 ≡ sum_under 2 coins) × (13 ≡ sum_under 2 ((2, 13) ∷ [])) × (12 < 13)
unfolding offer_change total_by_key refuse_shortfall change_due
offer_change-shortfall_example = offer_change-shortfall coins ((2, 13) ∷ []) 2 12 13 refl
