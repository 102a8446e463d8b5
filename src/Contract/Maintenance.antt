-- ===== src/Contract/Maintenance.antt =====
-- crates/midnight-contract/src/maintenance.rs: what the SDK checks of a maintenance update before it is
-- built. A verifying key, a signature and a circuit's name are numbers that stand for them; whether a
-- key verifies a signature over some bytes is a parameter.
pub mod Members
pub mod Committee
pub mod Sequence
pub mod Specs
pub mod Quorum
mod Tests
use midnight_rs.Base.{
  ℕ, zero, suc, ◌+◌, ◌%◌, ◌^◌, Bool, true, false, ◌&&◌, not, Option, none, some, List, [], ◌∷◌,
  ◌++◌, ltb, ◌==◌, if◌then◌else◌, is_empty, any, length, Result, ok, err, ◌>>=◌, ◌>>◌,
}

-- `ContractError::Maintenance`, by its message.
pub data Refusal : Type 0 where
  no_member zero_threshold threshold_too_high duplicate_member : Refusal
  index_outside duplicate_index bad_signature too_few : Refusal
  already_defined not_defined no_operation two_replaces : Refusal

abbrev pub contains : List ℕ → ℕ → Bool
contains xs x = any (λ y. y == x) xs

-- `committee[..i].contains(vk)` for each member.
abbrev pub refuse_duplicates : List ℕ → List ℕ → Result Refusal Unit
refuse_duplicates before [] = ok tt
refuse_duplicates before (vk ∷ rest) =
    let more = refuse_duplicates (before ++ vk ∷ []) rest in
    if contains before vk then err Refusal.duplicate_member else more

unfoldable pub validate_committee : List ℕ → ℕ → Result Refusal Unit
validate_committee committee threshold =
    if is_empty committee
    then err Refusal.no_member
    else if threshold == 0
    then err Refusal.zero_threshold
    else if ltb (length committee) threshold
    then err Refusal.threshold_too_high
    else refuse_duplicates [] committee

abbrev pub get_elem? : List ℕ → ℕ → Option ℕ
get_elem? [] i = none
get_elem? (x ∷ xs) zero = some x
get_elem? (x ∷ xs) (suc i) = get_elem? xs i

-- `VerifyingKey::verify` of the ledger, on the bytes to sign: key and signature.
module _ (verifies : ℕ → ℕ → Bool) (committee : List ℕ) where
  -- The loop over `(index, signature)`, with the indices seen.
  abbrev pub check_each : List ℕ → List (ℕ × ℕ) → Result Refusal (List ℕ)
  check_each seen [] = ok seen
  check_each seen ((idx, sig) ∷ sigs) =
      let more = check_each (idx ∷ seen) sigs in
      elim (get_elem? committee idx) [
        | none ↦ err Refusal.index_outside
        | some vk ↦
            if contains seen idx
            then err Refusal.duplicate_index
            else if verifies vk sig
            then more
            else err Refusal.bad_signature
      ]

  -- The count is taken as a `u32`.
  unfoldable pub validate_signatures : List (ℕ × ℕ) → ℕ → Result Refusal Unit
  validate_signatures signatures threshold = check_each [] signatures >>= λ seen.
      if ltb (length seen % 2 ^ 32) threshold then err Refusal.too_few else ok tt

-- `presence.get(circuit)`, or the state's operations.
abbrev pub present_at : List ℕ → List (ℕ × Bool) → ℕ → Bool
present_at operations [] circuit = contains operations circuit
present_at operations ((c, p) ∷ presence) circuit =
    if c == circuit then p else present_at operations presence circuit

abbrev pub check_ops : List ℕ → List (ℕ × Bool) → List (ℕ × Bool) → Result Refusal Unit
check_ops operations presence [] = ok tt
check_ops operations presence ((circuit, is_insert) ∷ ops) =
    let present = present_at operations presence circuit in
    let more = check_ops operations ((circuit, is_insert) ∷ presence) ops in
    if is_insert && present
    then err Refusal.already_defined
    else if not is_insert && not present
    then err Refusal.not_defined
    else more

-- The operations are `(circuit, is_insert)`.
unfoldable pub validate_vk_sequence : List ℕ → List (ℕ × Bool) → Result Refusal Unit
validate_vk_sequence operations ops = check_ops operations [] ops

pub data OpSpec : Type 0 where
  insert : ℕ → List ℕ → OpSpec
  remove : ℕ → OpSpec
  replace : List ℕ → ℕ → OpSpec
  retire : OpSpec

abbrev pub vk_ops : List OpSpec → List (ℕ × Bool)
vk_ops [] = []
vk_ops (OpSpec.insert circuit verifier_key ∷ specs) = (circuit, true) ∷ vk_ops specs
vk_ops (OpSpec.remove circuit ∷ specs) = (circuit, false) ∷ vk_ops specs
vk_ops (_ ∷ specs) = vk_ops specs

-- The loop that counts the replacements.
abbrev pub count_replaces : ℕ → List OpSpec → Result Refusal ℕ
count_replaces replaces [] = ok replaces
count_replaces replaces (OpSpec.replace committee threshold ∷ specs) =
    validate_committee committee threshold >> count_replaces (replaces + 1) specs
count_replaces replaces (OpSpec.retire ∷ specs) = count_replaces (replaces + 1) specs
count_replaces replaces (OpSpec.insert circuit verifier_key ∷ specs) = count_replaces replaces specs
count_replaces replaces (OpSpec.remove circuit ∷ specs) = count_replaces replaces specs

-- What `prepare` checks once it has the state of the chain.
unfoldable pub check_specs : List ℕ → List OpSpec → Result Refusal Unit
unfolding validate_committee validate_vk_sequence
check_specs operations specs =
    if is_empty specs
    then err Refusal.no_operation
    else (validate_vk_sequence operations (vk_ops specs)
        >> (count_replaces 0 specs >>= λ replaces.
            if ltb 1 replaces then err Refusal.two_replaces else ok tt))
