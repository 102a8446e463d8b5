-- ===== src/Contract/Maintenance/Tests.antt =====
-- A committee of three with a threshold of two, and the theorems there.
use midnight_rs.Base.{
  ℕ, ◌≤◌, ◌<◌, ◌≡◌, ◌↔◌, refl, Bool, true, false, List, [], ◌∷◌, ◌+◌, ◌==◌, is_empty, any, All,
  length, err, ok, arith,
}
use midnight_rs.Contract.Maintenance.{
  Refusal, OpSpec, contains, vk_ops, validate_committee, validate_signatures, validate_vk_sequence,
  check_specs,
}
use midnight_rs.Contract.Maintenance.Members.{all_distinct}
use midnight_rs.Contract.Maintenance.Committee.{validate_signatures_threshold}
use midnight_rs.Contract.Maintenance.Sequence.{
  on_circuit, takes_turns, validate_vk_sequence-takes_turns,
}
use midnight_rs.Contract.Maintenance.Quorum.{validate_signatures_quorum}
use midnight_rs.Contract.Maintenance.Specs.{replacements, NamesQuorum, check_specs_ok}

-- A signature by a key is the key and 100.
abbrev verifies : ℕ → ℕ → Bool
verifies key signature = key + 100 == signature

abbrev committee : List ℕ
committee = 11 ∷ 12 ∷ 13 ∷ []

-- The third member and the first.
abbrev signatures : List (ℕ × ℕ)
signatures = (2, 113) ∷ (0, 111) ∷ []

validate_signatures_threshold_example :
    (keys : List ℕ) × (all_distinct keys ≡ true)
    × All (λ k. (contains committee k ≡ true) × (any (λ s. verifies k s.1) signatures ≡ true)) keys
    × (0 < 2)
    × (2 ≤ length keys)
unfolding validate_committee validate_signatures
validate_signatures_threshold_example =
    validate_signatures_threshold verifies committee 2 signatures refl refl

-- A member who signs twice does not count twice.
signed_twice :
    validate_signatures verifies committee ((2, 113) ∷ (2, 113) ∷ []) 2
    ≡ err Refusal.duplicate_index
unfolding validate_signatures
signed_twice = refl

-- A committee that names a member twice is refused.
member_twice : validate_committee (11 ∷ 12 ∷ 11 ∷ []) 2 ≡ err Refusal.duplicate_member
unfolding validate_committee
member_twice = refl

-- The key of circuit 5 is rotated, and the authority is replaced.
abbrev rotation : List OpSpec
rotation = OpSpec.remove 5 ∷ OpSpec.insert 5 (1 ∷ []) ∷ OpSpec.replace (21 ∷ 22 ∷ []) 2 ∷ []

validate_vk_sequence-takes_turns_example :
    (validate_vk_sequence (5 ∷ 6 ∷ []) (vk_ops rotation) ≡ ok tt)
    ↔ ((c : ℕ) → takes_turns (contains (5 ∷ 6 ∷ []) c) (on_circuit c (vk_ops rotation)) ≡ true)
validate_vk_sequence-takes_turns_example =
    validate_vk_sequence-takes_turns (5 ∷ 6 ∷ []) (vk_ops rotation)

check_specs_ok_example :
    (is_empty rotation ≡ false)
    × (replacements rotation ≤ 1)
    × All NamesQuorum rotation
    × ((c : ℕ) → takes_turns (contains (5 ∷ 6 ∷ []) c) (on_circuit c (vk_ops rotation)) ≡ true)
unfolding check_specs
check_specs_ok_example = check_specs_ok (5 ∷ 6 ∷ []) rotation refl

-- A key that is there is not replaced.
insert_again : validate_vk_sequence (5 ∷ []) ((5, true) ∷ []) ≡ err Refusal.already_defined
unfolding validate_vk_sequence
insert_again = refl

validate_signatures_quorum_example : validate_signatures verifies committee signatures 2 ≡ ok tt
validate_signatures_quorum_example =
    validate_signatures_quorum verifies committee 2 signatures
      ((13, refl, refl), ((11, refl, refl), tt)) refl (omega arith) (omega arith)
