-- ===== src/Wallet/Replay/Utxo.antt =====
-- `parse_utxo` and `apply_unshielded_tx` of midnight-wallet/src/replay.rs: what one transaction of the
-- unshielded stream does to the tracked UTXOs. Texts are their bytes; the decoder of a 32-byte hex
-- text is a parameter.
pub mod Laws
mod Tests
use Prim.Native.String.{String}
use midnight_rs.Base.{
  ℕ, ◌+◌, ◌-◌, ◌*◌, ◌^◌, Bool, true, false, ◌&&◌, not, Option, none, some, List, [], ◌∷◌, ◌++◌, map,
  ltb, leb, ◌==◌, if◌then◌else◌, ℤ, pos, negsuc, Result, ok, err, ok_or, traverse, ◌>>=◌, retain,
}
use midnight_rs.Wallet.Types.{
  UtxoField, WalletError, SpentUtxoKey, contains_key, TrackedUtxo, spent_key,
}

-- `SubscriptionUtxo`
pub record SubscriptionUtxo : Type 0 where
  pub owner : String
  pub token_type : List ℕ
  pub value : List ℕ
  pub intent_hash : List ℕ
  pub output_index : ℤ
  pub ctime : Option ℤ
  pub registered_for_dust_generation : Option Bool

-- `UnshieldedTxRef` and `UnshieldedTxData`; the block is its height.
pub record UnshieldedTxRef : Type 0 where
  pub id : Option ℤ
  pub block : Option ℤ

pub record UnshieldedTxData : Type 0 where
  pub transaction : Option UnshieldedTxRef
  pub created_utxos : List SubscriptionUtxo
  pub spent_utxos : List SubscriptionUtxo

-- The digits of a `u128`, from the left; `none` on another byte or past `u128::MAX`.
abbrev pub parse_digits : ℕ → List ℕ → Option ℕ
parse_digits n [] = some n
parse_digits n (c ∷ cs) =
    let n' = n * 10 + (c - b'0') in
    let rest = parse_digits n' cs in
    if leb b'0' c && leb c b'9' && ltb n' (2 ^ 128) then rest else none

-- `str::parse::<u128>`: one leading `+` is allowed, and at least one digit is needed.
unfoldable pub parse_u128 : List ℕ → Option ℕ
parse_u128 [] = none
parse_u128 (c ∷ []) = parse_digits 0 (c ∷ [])
parse_u128 (c ∷ d ∷ cs) = if c == b'+' then parse_digits 0 (d ∷ cs) else parse_digits 0 (c ∷ d ∷ cs)

-- `u32::try_from` of an `i64`
unfoldable pub to_u32 : ℤ → Option ℕ
to_u32 (pos n) = if ltb n (2 ^ 32) then some n else none
to_u32 (negsuc n) = none

abbrev malformed : UtxoField → WalletError
malformed field = WalletError.malformed_utxo field none

module _ (hash_from_hex : List ℕ → Option ℕ) where
  unfoldable pub parse_utxo : SubscriptionUtxo → Result WalletError TrackedUtxo
  parse_utxo u = do
    token_type ← ok_or (hash_from_hex u.token_type) (malformed UtxoField.token_type)
    value ← ok_or (parse_u128 u.value) (malformed UtxoField.value)
    intent_hash ← ok_or (hash_from_hex u.intent_hash) (malformed UtxoField.intent_hash)
    output_index ← ok_or (to_u32 u.output_index) (malformed UtxoField.output_index)
    ok (record {
      owner = u.owner;
      token_type = token_type;
      value = value;
      intent_hash = intent_hash;
      output_index = output_index;
      ctime = u.ctime;
      registered_for_dust_generation = u.registered_for_dust_generation;
    })

  -- The UTXOs after the transaction, and the keys that it spent.
  unfoldable pub apply_unshielded_tx :
      List TrackedUtxo
      → UnshieldedTxData
      → Result WalletError (List TrackedUtxo × List SpentUtxoKey)
  apply_unshielded_tx utxos tx_data = do
    spent ← traverse parse_utxo tx_data.spent_utxos
    created ← traverse parse_utxo tx_data.created_utxos
    let spent_keys = map spent_key spent
    ok (retain (λ u. not (contains_key spent_keys (spent_key u))) utxos ++ created, spent_keys)
