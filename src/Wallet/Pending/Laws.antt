-- ===== src/Wallet/Pending/Laws.antt =====
-- midnight-wallet/src/per_ledger/pending.rs: what a confirmation does to the inputs that are reserved.
use midnight_rs.Base.{
  ℕ, ◌≡◌, refl, sym, Bool, true, ◌&&◌, ◌||◌, not, List, [], ◌∷◌, arith, ◌==◌, if◌then◌else◌,
  is_empty, any, retain, length, any-retain, length-retain,
}
use midnight_rs.Wallet.Types.{SpentUtxoKey, eq_key, contains_key}
use midnight_rs.Wallet.Pending.{
  DustBatch, UnshieldedSpend, Reservations, batch_spends, spends_any_of, clear_confirmed,
  same_lengths,
}

module _ {D : Type 0} where
  -- Whether an input is reserved, which a build asks before it selects it.
  abbrev pub holds_key : Reservations D → SpentUtxoKey → Bool
  holds_key p k = any (λ e. eq_key e.key k) p.unshielded

-- `retain` drops an element exactly if the list gets shorter.
retain-length {ℓ} :
    {A : Type ℓ} (dropped : A → Bool) (xs : List A)
    → (length (retain (λ x. not (dropped x)) xs) == length xs) ≡ not (any dropped xs)
retain-length dropped [] = refl
retain-length dropped (x ∷ xs) =
    ground (arith, retain-length dropped xs, length-retain (λ x. not (dropped x)) xs)

key-contained :
    (keys : List SpentUtxoKey) (j k : SpentUtxoKey)
    → eq_key j k ≡ true
    → contains_key keys j ≡ contains_key keys k
key-contained [] j k e = refl
key-contained (i ∷ keys) j k e = ground (arith, key-contained keys j k e)

holds-unspent :
    (keys : List SpentUtxoKey) (k : SpentUtxoKey) (es : List UnshieldedSpend)
    → any (λ e. eq_key e.key k) (retain (λ e. not (contains_key keys e.key)) es)
      ≡ (any (λ e. eq_key e.key k) es && not (contains_key keys k))
holds-unspent keys k [] = refl
holds-unspent keys k (e ∷ es) = ground (arith, key-contained keys e.key k, holds-unspent keys k es)

retain_all {ℓ} : {A : Type ℓ} (xs : List A) → retain (λ x. true) xs ≡ xs
retain_all [] = refl
retain_all (x ∷ xs) = rw (retain_all xs)

-- The guard on an empty list of names saves work and changes nothing.
retain_named {ℓ κ} :
    {A : Type ℓ} {B : Type κ} (names : List B) (test : A → B → Bool) (xs : List A)
    → (if not (is_empty names) then retain (λ x. not (any (test x) names)) xs else xs)
      ≡ retain (λ x. not (any (test x) names)) xs
retain_named [] test xs = sym (retain_all xs)
retain_named (n ∷ names) test xs = refl

same_lengths-not {ℓ κ} :
    {A : Type ℓ} {B : Type κ} (p : A → Bool) (q : B → Bool) (xs : List A) (ys : List B)
    → not (
        same_lengths
          (length (retain (λ x. not (p x)) xs), length (retain (λ y. not (q y)) ys))
          (length xs, length ys))
      ≡ (any p xs || any q ys)
same_lengths-not p q xs ys =
    rw (retain-length p xs, retain-length q ys) (de_morgan (any p xs) (any q ys))
  where
    de_morgan : (a b : Bool) → not (not a && not b) ≡ (a || b)
    de_morgan a b = ground arith

module _ {D : Type 0} (old_nullifier : D → ℕ) where
  -- A confirmation removes the unshielded keys that were spent and no other; it removes a Dust batch
  -- as a whole, exactly if one of its spends was seen (`q` is any question about batches); it leaves
  -- the coins; and it says whether it removed a reservation.
  pub clear_confirmed-holds :
      (keys : List SpentUtxoKey) (nullifiers : List ℕ) (p : Reservations D)
      → let (p', cleared) = clear_confirmed old_nullifier keys nullifiers p in
        ((k : SpentUtxoKey) → holds_key p' k ≡ (holds_key p k && not (contains_key keys k)))
        × ((q : DustBatch D → Bool)
            → any q p'.dust
              ≡ any (λ b. not (spends_any_of old_nullifier b nullifiers) && q b) p.dust)
        × (p'.shielded ≡ p.shielded)
        × (cleared ≡ (
            any (λ e. contains_key keys e.key) p.unshielded
            || any (λ b. spends_any_of old_nullifier b nullifiers) p.dust))
  unfolding clear_confirmed
  clear_confirmed-holds keys nullifiers p =
      rw
        (
          retain_named keys (λ e j. eq_key j e.key) p.unshielded,
          retain_named nullifiers (batch_spends old_nullifier) p.dust,
        )
        (
          λ k. holds-unspent keys k p.unshielded,
          λ q. any-retain q _ p.dust,
          refl,
          same_lengths-not (λ e. contains_key keys e.key)
              (λ b. spends_any_of old_nullifier b nullifiers) p.unshielded p.dust,
        )
