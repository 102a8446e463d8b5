-- ===== src/Wallet/Pending/Lifetime.antt =====
-- midnight-wallet/src/per_ledger/pending.rs: the time of a reservation, from the build that makes it
-- until it is confirmed, handed back or expired.
use mathlib.Core.List.{Memᴰ}
use mathlib.Core.List.Memᴰ
use midnight_rs.Base.{
  ℕ, ◌≡◌, refl, sym, ap, ◌∙◌, Bool, true, false, ◌&&◌, not, List, [], ◌∷◌, ◌++◌, map, leb, ◌==◌,
  if◌then◌else◌, is_empty, any, all, retain, retain-append, append-nil, and-true, Bool-cases, inl,
  inr,
}
use midnight_rs.Wallet.Types.{SpentUtxoKey, eq_key, contains_key}
use midnight_rs.Wallet.Pending.{
  DustBatch, UnshieldedSpend, ShieldedSpend, Reservations, ReservedInput, within_ttl, reserve,
  evict_expired, clear_confirmed, release,
}

-- What happens to the reservations, with its arguments.
pub data Step (D : Type 0) : Type 0 where
  reserved :
      (batches : List (List D)) (keys : List SpentUtxoKey) (coins : List ℕ) (at until : ℕ) → Step D
  evicted : (now : ℕ) → Step D
  confirmed : (keys : List SpentUtxoKey) (nullifiers : List ℕ) → Step D
  released :
      (dust : List (ReservedInput ℕ)) (unshielded : List (ReservedInput SpentUtxoKey))
      (shielded : List (ReservedInput ℕ))
      → Step D

-- An input of a build: the spends of a Dust batch, an unshielded key or a coin's nullifier.
pub data Input (D : Type 0) : Type 0 where
  batch_of : List D → Input D
  utxo : SpentUtxoKey → Input D
  coin : ℕ → Input D

-- An input is among those that a build reserves.
abbrev pub IsNamed : {D : Type 0} → List (List D) → List SpentUtxoKey → List ℕ → Input D → Type 0
IsNamed batches keys coins (Input.batch_of spends) = Memᴰ spends batches
IsNamed batches keys coins (Input.utxo key) = Memᴰ key keys
IsNamed batches keys coins (Input.coin nullifier) = Memᴰ nullifier coins

-- An input is reserved since `at`, until `until`.
abbrev pub IsReserved : {D : Type 0} → ℕ → ℕ → Input D → Reservations D → Type 0
IsReserved at until (Input.batch_of spends) p =
    Memᴰ (record { spends = spends; reserved_at = at; expires_at = until }) p.dust
IsReserved at until (Input.utxo key) p =
    Memᴰ (record { key = key; reserved_at = at; expires_at = until }) p.unshielded
IsReserved at until (Input.coin nullifier) p =
    Memᴰ (record { nullifier = nullifier; reserved_at = at; expires_at = until }) p.shielded

kept {ℓ} :
    {A : Type ℓ} {x : A} (p : A → Bool) (xs : List A)
    → p x ≡ true
    → Memᴰ x xs
    → Memᴰ x (retain p xs)
kept p [] h m = elim m [ ]
kept p (y ∷ xs) h (Memᴰ.head e) = rw (sym (ap p e) ∙ h) (Memᴰ.head e)
kept p (y ∷ xs) h (Memᴰ.tail m) = elim (Bool-cases (p y)) [
  | inl t ↦ rw t (Memᴰ.tail (kept p xs h m))
  | inr f ↦ rw f (kept p xs h m)
]

-- A guard that skips the removal where nothing is named
kept_guarded {ℓ} :
    {A : Type ℓ} {x : A} (skip : Bool) (p : A → Bool) (xs : List A)
    → p x ≡ true
    → Memᴰ x xs
    → Memᴰ x (if not skip then retain p xs else xs)
kept_guarded true p xs h m = m
kept_guarded false p xs h m = kept p xs h m

module _ {D : Type 0} (old_nullifier : D → ℕ) where
  unfoldable pub apply_step : Step D → Reservations D → Reservations D
  apply_step (Step.reserved batches keys coins at until) p = reserve batches keys coins at until p
  apply_step (Step.evicted now) p = evict_expired now p
  apply_step (Step.confirmed keys nullifiers) p =
      (clear_confirmed old_nullifier keys nullifiers p).0
  apply_step (Step.released dust unshielded shielded) p =
      release old_nullifier dust unshielded shielded p

  abbrev pub after : List (Step D) → Reservations D → Reservations D
  after [] p = p
  after (step ∷ steps) p = after steps (apply_step step p)

  -- Whether a confirmation is of another input.
  abbrev pub spares_confirmed : List SpentUtxoKey → List ℕ → Input D → Bool
  spares_confirmed keys nullifiers (Input.batch_of spends) =
      not (any (λ n. any (λ s. old_nullifier s == n) spends) nullifiers)
  spares_confirmed keys nullifiers (Input.utxo key) = not (contains_key keys key)
  spares_confirmed keys nullifiers (Input.coin nullifier) = true

  -- Whether a release is of other inputs, or under another stamp.
  abbrev pub spares_released :
      ℕ
      → List (ReservedInput ℕ)
      → List (ReservedInput SpentUtxoKey)
      → List (ReservedInput ℕ)
      → Input D
      → Bool
  spares_released at dust unshielded shielded (Input.batch_of spends) =
      not (any (λ d. d.reserved_at == at && any (λ s. old_nullifier s == d.input) spends) dust)
  spares_released at dust unshielded shielded (Input.utxo key) =
      not (any (λ u. u.reserved_at == at && eq_key u.input key) unshielded)
  spares_released at dust unshielded shielded (Input.coin nullifier) =
      not (any (λ s. s.reserved_at == at && s.input == nullifier) shielded)

  -- Whether a step neither confirms the input, nor hands it back under its stamp, nor comes after the
  -- end of its time.
  abbrev pub spares : ℕ → ℕ → Input D → Step D → Bool
  spares at until input (Step.reserved batches keys coins at' until') = true
  spares at until input (Step.evicted now) = leb now until
  spares at until input (Step.confirmed keys nullifiers) = spares_confirmed keys nullifiers input
  spares at until input (Step.released dust unshielded shielded) =
      spares_released at dust unshielded shielded input

  step-IsReserved :
      (at until : ℕ) (input : Input D) (step : Step D) (p : Reservations D)
      → spares at until input step ≡ true
      → IsReserved at until input p
      → IsReserved at until input (apply_step step p)
  unfolding apply_step reserve evict_expired clear_confirmed release
  step-IsReserved at until (Input.batch_of spends) (Step.reserved batches keys coins a u) p h m =
      Memᴰ.append_left _ m
  step-IsReserved at until (Input.utxo key) (Step.reserved batches keys coins a u) p h m =
      Memᴰ.append_left _ m
  step-IsReserved at until (Input.coin n) (Step.reserved batches keys coins a u) p h m =
      Memᴰ.append_left _ m
  step-IsReserved at until (Input.batch_of spends) (Step.evicted now) p h m = kept _ p.dust h m
  step-IsReserved at until (Input.utxo key) (Step.evicted now) p h m = kept _ p.unshielded h m
  step-IsReserved at until (Input.coin n) (Step.evicted now) p h m = kept _ p.shielded h m
  step-IsReserved at until (Input.batch_of spends) (Step.confirmed keys nullifiers) p h m =
      kept_guarded (is_empty nullifiers) _ p.dust h m
  step-IsReserved at until (Input.utxo key) (Step.confirmed keys nullifiers) p h m =
      kept_guarded (is_empty keys) _ p.unshielded h m
  step-IsReserved at until (Input.coin n) (Step.confirmed keys nullifiers) p h m = m
  step-IsReserved at until (Input.batch_of spends) (Step.released dust unshielded shielded) p h m =
      kept _ p.dust h m
  step-IsReserved at until (Input.utxo key) (Step.released dust unshielded shielded) p h m =
      kept _ p.unshielded h m
  step-IsReserved at until (Input.coin n) (Step.released dust unshielded shielded) p h m =
      kept _ p.shielded h m

  steps-IsReserved :
      (at until : ℕ) (input : Input D) (steps : List (Step D)) (p : Reservations D)
      → all (spares at until input) steps ≡ true
      → IsReserved at until input p
      → IsReserved at until input (after steps p)
  steps-IsReserved at until input [] p h m = m
  steps-IsReserved at until input (step ∷ steps) p h m =
      let (first, rest) =
        and-true (spares at until input step) (all (spares at until input) steps) h in
      steps-IsReserved at until input steps (apply_step step p) rest
        (step-IsReserved at until input step p first m)

  reserve-IsReserved :
      (batches : List (List D)) (keys : List SpentUtxoKey) (coins : List ℕ) (at until : ℕ)
      (p : Reservations D) (input : Input D)
      → IsNamed batches keys coins input
      → IsReserved at until input (reserve batches keys coins at until p)
  unfolding reserve
  reserve-IsReserved batches keys coins at until p (Input.batch_of spends) m =
      Memᴰ.append_right p.dust (Memᴰ.map _ m)
  reserve-IsReserved batches keys coins at until p (Input.utxo key) m =
      Memᴰ.append_right p.unshielded (Memᴰ.map _ m)
  reserve-IsReserved batches keys coins at until p (Input.coin n) m =
      Memᴰ.append_right p.shielded (Memᴰ.map _ m)

  -- Each input that a build reserves, the spends of a Dust batch, an unshielded key or a coin, stays
  -- reserved under the build's stamp through any sequence of reservations, evictions, confirmations
  -- and releases, unless an eviction comes after the end of the reservation's time, a confirmation
  -- names the key or a nullifier of the batch, or a release names the input under the same stamp.
  pub after-IsReserved :
      (batches : List (List D)) (keys : List SpentUtxoKey) (coins : List ℕ) (at until : ℕ)
      (p : Reservations D) (input : Input D) (steps : List (Step D))
      → IsNamed batches keys coins input
      → all (spares at until input) steps ≡ true
      → IsReserved at until input (after steps (reserve batches keys coins at until p))
  after-IsReserved batches keys coins at until p input steps named spared =
      steps-IsReserved at until input steps (reserve batches keys coins at until p) spared
        (reserve-IsReserved batches keys coins at until p input named)

-- New entries that all end at the same time are kept or dropped together.
retain-same {ℓ κ} :
    {A : Type ℓ} {B : Type κ} (p : B → Bool) (f : A → B) (b : Bool) (xs : List A)
    → ((x : A) → p (f x) ≡ b)
    → retain p (map f xs) ≡ (if b then map f xs else [])
retain-same p f true [] h = refl
retain-same p f false [] h = refl
retain-same p f true (x ∷ xs) h = rw (h x) (ap (λ l. f x ∷ l) (retain-same p f true xs h))
retain-same p f false (x ∷ xs) h = rw (h x) (retain-same p f false xs h)

retain-new {ℓ κ} :
    {A : Type ℓ} {B : Type κ} (p : B → Bool) (f : A → B) (b : Bool) (old : List B) (new : List A)
    → ((x : A) → p (f x) ≡ b)
    → retain p (old ++ map f new) ≡ retain p old ++ (if b then map f new else [])
retain-new p f b old new h =
    retain-append p old (map f new) ∙ ap (λ l. retain p old ++ l) (retain-same p f b new h)

module _ {D : Type 0} where
  -- An eviction after a reservation: while the time of the reservation lasts it is as if the eviction
  -- had come first, so it drops none of the new entries; after that it drops all of them, and it is as
  -- if there had been no reservation.
  pub evict_expired-reserve :
      (batches : List (List D)) (keys : List SpentUtxoKey) (coins : List ℕ) (at until now : ℕ)
      (p : Reservations D)
      → evict_expired now (reserve batches keys coins at until p) ≡ (
          if leb now until
          then reserve batches keys coins at until (evict_expired now p)
          else evict_expired now p)
  unfolding evict_expired reserve within_ttl
  evict_expired-reserve batches keys coins at until now p = elim (Bool-cases (leb now until)) [
    | inl e ↦ rw e (λ i. record {
      dust =
          (retain-new {B = DustBatch D} (λ b. leb now b.expires_at)
              (λ spends. record { spends = spends; reserved_at = at; expires_at = until }) true
              p.dust batches (λ x. e))
            i;
      unshielded =
          (retain-new {B = UnshieldedSpend} (λ e. leb now e.expires_at)
              (λ key. record { key = key; reserved_at = at; expires_at = until }) true p.unshielded
              keys (λ x. e))
            i;
      shielded =
          (retain-new {B = ShieldedSpend} (λ e. leb now e.expires_at)
              (λ nullifier. record { nullifier = nullifier; reserved_at = at; expires_at = until })
              true p.shielded coins (λ x. e))
            i;
    })
    | inr e ↦ rw e (λ i. record {
      dust =
          ((retain-new {B = DustBatch D} (λ b. leb now b.expires_at)
                (λ spends. record { spends = spends; reserved_at = at; expires_at = until }) false
                p.dust batches (λ x. e))
              ∙ append-nil (retain (λ x. leb now x.expires_at) p.dust))
            i;
      unshielded =
          ((retain-new {B = UnshieldedSpend} (λ e. leb now e.expires_at)
                (λ key. record { key = key; reserved_at = at; expires_at = until }) false
                p.unshielded keys (λ x. e))
              ∙ append-nil (retain (λ x. leb now x.expires_at) p.unshielded))
            i;
      shielded =
          ((retain-new {B = ShieldedSpend} (λ e. leb now e.expires_at)
                (λ nullifier. record {
                  nullifier = nullifier;
                  reserved_at = at;
                  expires_at = until;
                })
                false p.shielded coins (λ x. e))
              ∙ append-nil (retain (λ x. leb now x.expires_at) p.shielded))
            i;
    })
  ]
