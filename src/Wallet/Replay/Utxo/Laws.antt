-- ===== src/Wallet/Replay/Utxo/Laws.antt =====
-- What a transaction of the unshielded stream does to the tracked UTXOs, key by key, and when it is
-- refused.
use midnight_rs.Base.{
  ℕ, ◌+◌, ◌*◌, ◌-◌, ◌^◌, ◌<◌, ◌≡◌, refl, ◌↔◌, Bool, true, ◌&&◌, ◌||◌, not, Option, some, List, [],
  ◌∷◌, ◌++◌, map, arith, ℤ, pos, negsuc, Result, ok, err, traverse, ◌>>=◌, traverse-append, any,
  retain, any-append,
}
use midnight_rs.Wallet.Types.{
  WalletError, SpentUtxoKey, eq_key, contains_key, TrackedUtxo, spent_key,
}
use midnight_rs.Wallet.Replay.Utxo.{
  SubscriptionUtxo, UnshieldedTxData, parse_digits, parse_u128, to_u32, parse_utxo,
  apply_unshielded_tx,
}

-- Whether a list of UTXOs has one with the key.
abbrev pub holds : SpentUtxoKey → List TrackedUtxo → Bool
holds k us = any (λ u. eq_key (spent_key u) k) us

contains_key-eq :
    (keys : List SpentUtxoKey) (j k : SpentUtxoKey)
    → eq_key j k ≡ true
    → contains_key keys j ≡ contains_key keys k
contains_key-eq [] j k e = refl
contains_key-eq (i ∷ keys) j k e = ground (arith, contains_key-eq keys j k e)

holds-retain :
    (k : SpentUtxoKey) (keys : List SpentUtxoKey) (us : List TrackedUtxo)
    → holds k (retain (λ u. not (contains_key keys (spent_key u))) us)
      ≡ (holds k us && not (contains_key keys k))
holds-retain k keys [] = refl
holds-retain k keys (u ∷ us) =
    ground (arith, contains_key-eq keys (spent_key u) k, holds-retain k keys us)

parse_digits-lt :
    (n : ℕ) (cs : List ℕ) {m : ℕ} → n < 2 ^ 128 → parse_digits n cs ≡ some m → m < 2 ^ 128
parse_digits-lt n [] h e = ground arith
parse_digits-lt n (c ∷ cs) {m} h e =
    ground (arith, parse_digits-lt (n * 10 + (c - b'0')) cs {m = m})

-- A `u128` text that parses is in range.
pub parse_u128-lt : (cs : List ℕ) {m : ℕ} → parse_u128 cs ≡ some m → m < 2 ^ 128
unfolding parse_u128
parse_u128-lt [] e = cc
parse_u128-lt (c ∷ []) e = parse_digits-lt 0 (c ∷ []) (omega arith) e
parse_u128-lt (c ∷ d ∷ cs) {m} e =
    ground (arith, parse_digits-lt 0 (d ∷ cs) {m = m}, parse_digits-lt 0 (c ∷ d ∷ cs) {m = m})

to_u32-eq : (z : ℤ) {n : ℕ} → to_u32 z ≡ some n → (n < 2 ^ 32) × (z ≡ pos n)
unfolding to_u32
to_u32-eq (pos n) e = ground arith
to_u32-eq (negsuc n) e = cc

-- The UTXOs that are left once some keys are spent and some UTXOs are created.
abbrev remaining : List SpentUtxoKey → List TrackedUtxo → List TrackedUtxo
remaining keys utxos = retain (λ u. not (contains_key keys (spent_key u))) utxos

-- `apply_unshielded_tx` on the parsed spent and created UTXOs.
abbrev updated :
    List TrackedUtxo
    → Result WalletError (List TrackedUtxo)
    → Result WalletError (List TrackedUtxo)
    → Result WalletError (List TrackedUtxo × List SpentUtxoKey)
updated utxos (ok spent) (ok created) =
    ok (remaining (map spent_key spent) utxos ++ created, map spent_key spent)
updated utxos (ok spent) (err e) = err e
updated utxos (err e) created = err e

updated-ok :
    (utxos after : List TrackedUtxo) (keys : List SpentUtxoKey)
    (r q : Result WalletError (List TrackedUtxo))
    → updated utxos r q ≡ ok (after, keys)
    → (spent created : List TrackedUtxo) × (r ≡ ok spent)
      × (q ≡ ok created)
      × (keys ≡ map spent_key spent)
      × ((k : SpentUtxoKey)
          → holds k after ≡ ((holds k utxos && not (contains_key keys k)) || holds k created))
updated-ok utxos after keys (ok spent) (ok created) e =
    let same_keys : keys ≡ map spent_key spent = cc in
    let same : after ≡ remaining (map spent_key spent) utxos ++ created = cc in
    (
      spent,
      created,
      refl,
      refl,
      same_keys,
      λ k.
          rw (same, same_keys, ← holds-retain k (map spent_key spent) utxos)
            (any-append _ (remaining (map spent_key spent) utxos) created),
    )
updated-ok utxos after keys (ok spent) (err e') e = cc
updated-ok utxos after keys (err e') q e = cc

updated-err :
    (utxos : List TrackedUtxo) (e : WalletError) (r q : Result WalletError (List TrackedUtxo))
    → (updated utxos r q ≡ err e) ↔ ((r >>= λ a. (q >>= λ b. ok (a ++ b))) ≡ err e)
updated-err utxos e (ok a) (ok b) = (λ h. cc, λ h. cc)
updated-err utxos e (ok a) (err e') = (λ h. cc, λ h. cc)
updated-err utxos e (err e') q = (λ h. cc, λ h. cc)

module _ (hash_from_hex : List ℕ → Option ℕ) where
  apply-eq-updated :
      (utxos : List TrackedUtxo) (tx : UnshieldedTxData)
      → apply_unshielded_tx hash_from_hex utxos tx
        ≡ updated utxos
            (traverse (parse_utxo hash_from_hex) tx.spent_utxos)
            (traverse (parse_utxo hash_from_hex) tx.created_utxos)
  unfolding apply_unshielded_tx
  apply-eq-updated utxos tx =
      join (traverse (parse_utxo hash_from_hex) tx.spent_utxos)
        (traverse (parse_utxo hash_from_hex) tx.created_utxos)
    where
      join :
          (r q : Result WalletError (List TrackedUtxo))
          → ◌>>=◌ {B = List TrackedUtxo × List SpentUtxoKey} r (λ spent.
            ◌>>=◌ {B = List TrackedUtxo × List SpentUtxoKey} q (λ created.
              ok (remaining (map spent_key spent) utxos ++ created, map spent_key spent)))
            ≡ updated utxos r q
      join (ok a) (ok b) = refl
      join (ok a) (err e) = refl
      join (err e) q = refl

  -- A UTXO that parses has a value in the range of `u128` and an output index in that of `u32`, the
  -- index that the indexer sent, and it keeps the owner, the creation time and the registration.
  pub parse_utxo_bounds :
      (u : SubscriptionUtxo) {t : TrackedUtxo}
      → parse_utxo hash_from_hex u ≡ ok t
      → (t.value < 2 ^ 128)
        × (t.output_index < 2 ^ 32)
        × (u.output_index ≡ pos t.output_index)
        × (t.owner ≡ u.owner)
        × (t.ctime ≡ u.ctime)
        × (t.registered_for_dust_generation ≡ u.registered_for_dust_generation)
  unfolding parse_utxo
  parse_utxo_bounds u e = grind (arith, parse_u128-lt, to_u32-eq)

  -- A transaction that is applied: each of its spent and created UTXOs parses; the keys are those of
  -- the spent ones; and a key is held afterwards exactly if it was held and is not spent, or it is
  -- that of a created UTXO.
  pub apply_unshielded_tx-ok :
      (utxos : List TrackedUtxo) (tx : UnshieldedTxData) {after : List TrackedUtxo}
      {keys : List SpentUtxoKey}
      → apply_unshielded_tx hash_from_hex utxos tx ≡ ok (after, keys)
      → (spent created : List TrackedUtxo) × (traverse (parse_utxo hash_from_hex) tx.spent_utxos
          ≡ ok spent)
        × (traverse (parse_utxo hash_from_hex) tx.created_utxos ≡ ok created)
        × (keys ≡ map spent_key spent)
        × ((k : SpentUtxoKey)
            → holds k after ≡ ((holds k utxos && not (contains_key keys k)) || holds k created))
  apply_unshielded_tx-ok utxos tx {after} {keys} e =
      updated-ok utxos after keys (traverse (parse_utxo hash_from_hex) tx.spent_utxos)
        (traverse (parse_utxo hash_from_hex) tx.created_utxos) (rw (apply-eq-updated utxos tx) at e)

  -- A transaction is refused exactly where one of its UTXOs, the spent ones first, is malformed, and
  -- with the error of the first that is.
  pub apply_unshielded_tx-err :
      (utxos : List TrackedUtxo) (tx : UnshieldedTxData) (e : WalletError)
      → (apply_unshielded_tx hash_from_hex utxos tx ≡ err e)
        ↔ (traverse (parse_utxo hash_from_hex) (tx.spent_utxos ++ tx.created_utxos) ≡ err e)
  apply_unshielded_tx-err utxos tx e =
      rw
        (
          apply-eq-updated utxos tx,
          traverse-append (parse_utxo hash_from_hex) tx.spent_utxos tx.created_utxos,
        )
        (updated-err utxos e (traverse (parse_utxo hash_from_hex) tx.spent_utxos)
          (traverse (parse_utxo hash_from_hex) tx.created_utxos))
