-- ===== src/Contract/Maintenance/Specs.antt =====
-- crates/midnight-contract/src/maintenance.rs: the steps of an update that `prepare` lets through.
use midnight_rs.Base.{
  ℕ, suc, ◌+◌, ◌≤◌, ◌<◌, ◌≡◌, true, false, List, [], ◌∷◌, ltb, if◌then◌else◌, is_empty, length, All,
  Result, ok, err, >>=-eq-ok, arith, Bool-cases, inl, inr,
}
use midnight_rs.Contract.Maintenance.{
  Refusal, OpSpec, contains, validate_committee, validate_vk_sequence, vk_ops, count_replaces,
  check_specs,
}
use midnight_rs.Contract.Maintenance.Members.{all_distinct}
use midnight_rs.Contract.Maintenance.Committee.{refused, validate_committee-all_distinct}
use midnight_rs.Contract.Maintenance.Sequence.{
  on_circuit, takes_turns, validate_vk_sequence-takes_turns,
}

-- The steps that change the authority: a `Replace` or a `Retire`.
abbrev pub replacements : List OpSpec → ℕ
replacements [] = 0
replacements (OpSpec.replace committee threshold ∷ specs) = suc (replacements specs)
replacements (OpSpec.retire ∷ specs) = suc (replacements specs)
replacements (_ ∷ specs) = replacements specs

-- The committee of a `Replace` has members who can act for it, and no member twice. A `Retire` names
-- no committee: the one that it installs is empty.
abbrev pub NamesQuorum : OpSpec → Type 0
NamesQuorum (OpSpec.replace committee threshold) =
    (0 < threshold) × (threshold ≤ length committee) × (all_distinct committee ≡ true)
NamesQuorum _ = Unit

count_replaces-replacements :
    (specs : List OpSpec) (before n : ℕ)
    → count_replaces before specs ≡ ok n
    → (n ≡ before + replacements specs) × All NamesQuorum specs
count_replaces-replacements [] before n h = (omega (arith, ok_same before n h), tt)
  where
    ok_same : (x y : ℕ) → ◌≡◌ {A = Result Refusal ℕ} (ok x) (ok y) → x ≡ y
    ok_same x y e = cc
count_replaces-replacements (OpSpec.replace committee threshold ∷ specs) before n h =
    let (u, valid, more) = >>=-eq-ok (validate_committee committee threshold) _ h in
    let (sum, others) = count_replaces-replacements specs (before + 1) n more in
    (omega (arith, sum), (validate_committee-all_distinct committee threshold valid, others))
count_replaces-replacements (OpSpec.retire ∷ specs) before n h =
    let (sum, others) = count_replaces-replacements specs (before + 1) n h in
    (omega (arith, sum), (tt, others))
count_replaces-replacements (OpSpec.insert circuit key ∷ specs) before n h =
    let (sum, others) = count_replaces-replacements specs before n h in (sum, (tt, others))
count_replaces-replacements (OpSpec.remove circuit ∷ specs) before n h =
    let (sum, others) = count_replaces-replacements specs before n h in (sum, (tt, others))

at_most_one : (n : ℕ) → (if ltb 1 n then err Refusal.two_replaces else ok tt) ≡ ok tt → n ≤ 1
at_most_one n h = elim (Bool-cases (ltb 1 n)) [
  | inl more ↦ absurd (refused Refusal.two_replaces tt (rw more at h))
  | inr few ↦ ground arith
]

-- If an update is let through: it has a step; at most one of its steps replaces or retires the
-- authority; each `Replace` step names different members and a threshold that is at least one and no
-- more than they are (of a `Retire` step nothing more is asked); and its inserts and removes on each
-- circuit take turns, a remove first exactly if the circuit has a key in the state.
pub check_specs_ok :
    (operations : List ℕ) (specs : List OpSpec)
    → check_specs operations specs ≡ ok tt
    → (is_empty specs ≡ false)
      × (replacements specs ≤ 1)
      × All NamesQuorum specs
      × ((c : ℕ) → takes_turns (contains operations c) (on_circuit c (vk_ops specs)) ≡ true)
unfolding check_specs
check_specs_ok operations specs h = elim (Bool-cases (is_empty specs)) [
  | inl nothing ↦ absurd (refused Refusal.no_operation tt (rw nothing at h))
  | inr steps ↦
      let (u, sequence, rest) =
        >>=-eq-ok (validate_vk_sequence operations (vk_ops specs)) _ (rw steps at h) in
      let (n, counted, few) = >>=-eq-ok (count_replaces 0 specs) _ rest in
      let (sum, sound) = count_replaces-replacements specs 0 n counted in
      (
        steps,
        omega (arith, sum, at_most_one n few),
        sound,
        (validate_vk_sequence-takes_turns operations (vk_ops specs)).0 sequence,
      )
]
