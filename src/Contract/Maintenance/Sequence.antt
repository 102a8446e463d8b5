-- ===== src/Contract/Maintenance/Sequence.antt =====
-- crates/midnight-contract/src/maintenance.rs: the order of the verifier-key operations of a batch.
use midnight_rs.Base.{
  ℕ, ◌≡◌, refl, ◌↔◌, Bool, true, false, List, [], ◌∷◌, ◌==◌, if◌then◌else◌, ok, Bool-cases, inl,
  inr, arith,
}
use midnight_rs.Contract.Maintenance.{
  Refusal, contains, present_at, check_ops, validate_vk_sequence,
}
use midnight_rs.Contract.Maintenance.Members.{==_same}
use midnight_rs.Contract.Maintenance.Committee.{refused}

-- What a batch does to one circuit: whether each operation on it, in order, is an insert.
abbrev pub on_circuit : ℕ → List (ℕ × Bool) → List Bool
on_circuit c [] = []
on_circuit c ((circuit, is_insert) ∷ ops) =
    if circuit == c then is_insert ∷ on_circuit c ops else on_circuit c ops

-- Removes and inserts by turns: a remove first where there is a key, an insert first where there is none.
abbrev pub takes_turns : Bool → List Bool → Bool
takes_turns present [] = true
takes_turns true (true ∷ ops) = false
takes_turns true (false ∷ ops) = takes_turns false ops
takes_turns false (true ∷ ops) = takes_turns true ops
takes_turns false (false ∷ ops) = false

turn :
    (b present : Bool) (ops : List Bool)
    → takes_turns present (b ∷ ops) ≡ true
    → takes_turns b ops ≡ true
turn true true ops h = cc
turn true false ops h = h
turn false true ops h = h
turn false false ops h = cc

clash : ◌≡◌ {A = Bool} false true → ⊥
clash e = cc

module _ (operations : List ℕ) where
  -- The state of each circuit after the operations `presence`, and what is still to come.
  abbrev AllTurns : List (ℕ × Bool) → List (ℕ × Bool) → Type 0
  AllTurns presence ops =
      (c : ℕ) → takes_turns (present_at operations presence c) (on_circuit c ops) ≡ true

  turns_first :
      (circuit : ℕ) (b : Bool) (ops presence : List (ℕ × Bool))
      → AllTurns presence ((circuit, b) ∷ ops)
      → takes_turns (present_at operations presence circuit) (b ∷ on_circuit circuit ops) ≡ true
  turns_first circuit b ops presence h = rw (==_same circuit) at (h circuit)

  turns_rest :
      (circuit : ℕ) (b : Bool) (ops presence : List (ℕ × Bool))
      → AllTurns presence ((circuit, b) ∷ ops)
      → AllTurns ((circuit, b) ∷ presence) ops
  turns_rest circuit b ops presence h c = elim (Bool-cases (circuit == c)) [
    | inl e ↦ rw e (turn b (present_at operations presence c) (on_circuit c ops) (rw e at (h c)))
    | inr e ↦ rw e (rw e at (h c))
  ]

  turns_more :
      (circuit : ℕ) (b : Bool) (ops presence : List (ℕ × Bool))
      → takes_turns (present_at operations presence circuit) (b ∷ []) ≡ true
      → AllTurns ((circuit, b) ∷ presence) ops
      → AllTurns presence ((circuit, b) ∷ ops)
  turns_more circuit b ops presence may h c = elim (Bool-cases (circuit == c)) [
    | inl e ↦
        let here : circuit ≡ c = ground arith in
        rw e (
          join b (present_at operations presence c) (on_circuit c ops) (rw here at may)
            (rw e at (h c)))
    | inr e ↦ rw e (rw e at (h c))
  ]
    where
      join :
          (b present : Bool) (ops : List Bool)
          → takes_turns present (b ∷ []) ≡ true
          → takes_turns b ops ≡ true
          → takes_turns present (b ∷ ops) ≡ true
      join true true ops e h = cc
      join true false ops e h = h
      join false true ops e h = h
      join false false ops e h = cc

  check_ops-turns :
      (ops presence : List (ℕ × Bool))
      → check_ops operations presence ops ≡ ok tt
      → AllTurns presence ops
  check_ops-turns [] presence h = λ c. refl
  check_ops-turns ((circuit, true) ∷ ops) presence h =
      elim (Bool-cases (present_at operations presence circuit)) [
        | inl e ↦ absurd (refused Refusal.already_defined tt (rw e at h))
        | inr e ↦
            turns_more circuit true ops presence (rw e refl)
              (check_ops-turns ops ((circuit, true) ∷ presence) (rw e at h))
      ]
  check_ops-turns ((circuit, false) ∷ ops) presence h =
      elim (Bool-cases (present_at operations presence circuit)) [
        | inl e ↦
            turns_more circuit false ops presence (rw e refl)
              (check_ops-turns ops ((circuit, false) ∷ presence) (rw e at h))
        | inr e ↦ absurd (refused Refusal.not_defined tt (rw e at h))
      ]

  turns-check_ops :
      (ops presence : List (ℕ × Bool))
      → AllTurns presence ops
      → check_ops operations presence ops ≡ ok tt
  turns-check_ops [] presence h = refl
  turns-check_ops ((circuit, true) ∷ ops) presence h =
      let first = turns_first circuit true ops presence h in
      let rest =
        turns-check_ops ops ((circuit, true) ∷ presence) (turns_rest circuit true ops presence h) in
      elim (Bool-cases (present_at operations presence circuit)) [
        | inl e ↦ absurd (clash (rw e at first))
        | inr e ↦ rw e rest
      ]
  turns-check_ops ((circuit, false) ∷ ops) presence h =
      let first = turns_first circuit false ops presence h in
      let rest =
        turns-check_ops ops ((circuit, false) ∷ presence)
          (turns_rest circuit false ops presence h) in
      elim (Bool-cases (present_at operations presence circuit)) [
        | inl e ↦ rw e rest
        | inr e ↦ absurd (clash (rw e at first))
      ]

-- A batch of inserts and removes is accepted exactly when the operations on each circuit take turns: a
-- remove first if the circuit has a key in the state, an insert first if it has none, and after that
-- an insert after each remove and a remove after each insert.
pub validate_vk_sequence-takes_turns :
    (operations : List ℕ) (ops : List (ℕ × Bool))
    → (validate_vk_sequence operations ops ≡ ok tt)
      ↔ ((c : ℕ) → takes_turns (contains operations c) (on_circuit c ops) ≡ true)
unfolding validate_vk_sequence
validate_vk_sequence-takes_turns operations ops =
    (check_ops-turns operations ops [], turns-check_ops operations ops [])
