-- ===== src/Contract/Change.antt =====
-- midnight-contract/src/change.rs and `refuse_shortfall` of offer.rs. A key, which the code only
-- compares, is a number, and a `BTreeMap` is the list of its entries in key order.
pub mod Totals
pub mod Due
mod Tests
use midnight_rs.Base.{
  ℕ, zero, suc, ◌+◌, ◌-◌, ◌^◌, Bool, true, false, Option, none, some, List, [], ◌∷◌, Result, ok,
  err, ◌>>=◌, ltb, ◌==◌, if◌then◌else◌,
}

abbrev pub Totals : Type 0
Totals = List (ℕ × ℕ)

pub data ContractError : Type 0 where
  construction : ContractError
  shielded_offer_shortfall : (token_type held paid : ℕ) → ContractError

-- `u128::checked_add`
abbrev pub checked_add : ℕ → ℕ → Option ℕ
checked_add a b = if ltb (a + b) (2 ^ 128) then some (a + b) else none

-- `get(key).copied().unwrap_or(0)`
abbrev pub get_or_zero : ℕ → Totals → ℕ
get_or_zero k [] = 0
get_or_zero k ((key, total) ∷ m) = if k == key then total else get_or_zero k m

abbrev pub replaced : ℕ → Totals → Option ℕ → Result ContractError Totals
replaced key m none = err ContractError.construction
replaced key m (some total) = ok ((key, total) ∷ m)

abbrev pub keep_entry : ℕ × ℕ → Result ContractError Totals → Result ContractError Totals
keep_entry entry (ok m) = ok (entry ∷ m)
keep_entry entry (err e) = err e

-- `*totals.entry(key).or_default() += value`, checked.
abbrev pub add_value : ℕ → ℕ → Totals → Result ContractError Totals
add_value k value [] = replaced k [] (checked_add 0 value)
add_value k value ((key, total) ∷ m) =
    if k == key
    then replaced key m (checked_add total value)
    else if ltb k key
    then replaced k ((key, total) ∷ m) (checked_add 0 value)
    else keep_entry (key, total) (add_value k value m)

abbrev pub add_values : List (ℕ × ℕ) → Totals → Result ContractError Totals
add_values [] totals = ok totals
add_values ((key, value) ∷ values) totals =
    add_value key value totals >>= λ totals'. add_values values totals'

unfoldable pub total_by_key : List (ℕ × ℕ) → Result ContractError Totals
total_by_key values = add_values values []

abbrev pub owed_entry : ℕ → ℕ → ℕ → List (ℕ × ℕ) → List (ℕ × ℕ)
owed_entry key attached uncovered change =
    if ltb attached uncovered
    then change
    else if attached - uncovered == 0
    then change
    else (key, attached - uncovered) ∷ change

-- `drawn.saturating_sub(minted)` is the subtraction that stops at 0.
unfoldable pub change_due : Totals → Totals → Totals → List (ℕ × ℕ)
change_due [] drawn minted = []
change_due ((key, attached) ∷ m) drawn minted =
    owed_entry key attached (get_or_zero key drawn - get_or_zero key minted)
      (change_due m drawn minted)

unfoldable pub refuse_shortfall : Totals → Totals → Result ContractError (Unit {0})
refuse_shortfall held [] = ok tt
refuse_shortfall held ((token_type, paid) ∷ m) =
    if ltb (get_or_zero token_type held) paid
    then err (ContractError.shielded_offer_shortfall token_type (get_or_zero token_type held) paid)
    else refuse_shortfall held m

-- `pay_offer` in per_ledger/deploy.rs up to the change: what the coins hold beyond the payments.
unfoldable pub offer_change : List (ℕ × ℕ) → List (ℕ × ℕ) → Result ContractError (List (ℕ × ℕ))
offer_change coins payments = total_by_key coins >>= λ held.
    (total_by_key payments >>= λ paid.
    (refuse_shortfall held paid >>= λ _. ok (change_due held paid [])))
