-- ===== src/Wallet/Pending/Stored.antt =====
-- `to_stored` and `from_stored` of midnight-wallet/src/per_ledger/pending.rs: the reservations as
-- `pending.json` holds them. The ledger's tagged serialization and the hex codec are parameters;
-- a text is its bytes.
use midnight_rs.Base.{
  ℕ, ◌≡◌, ◌≢◌, refl, Bool, true, false, not, Option, some, List, [], ◌∷◌, Result, ok, ok_or,
  traverse, ◌>>=◌, >>=-eq-ok, subst, if◌then◌else◌, arith,
}
use midnight_rs.Wallet.Types.{LedgerVersion, WalletError}
use midnight_rs.Wallet.Pending.{
  DustBatch, UnshieldedSpend, ShieldedSpend, Reservations, no_reservations,
}

-- `StoredPendingDustBatch` and its siblings
pub record StoredDustBatch : Type 0 where
  pub spends_hex : List ℕ
  pub reserved_at_secs : ℕ
  pub expires_at_secs : ℕ

pub record StoredUnshielded : Type 0 where
  pub intent_hash : List ℕ
  pub output_index : ℕ
  pub reserved_at_secs : ℕ
  pub expires_at_secs : ℕ

pub record StoredShielded : Type 0 where
  pub nullifier_hex : List ℕ
  pub reserved_at_secs : ℕ
  pub expires_at_secs : ℕ

pub record StoredPending : Type 0 where
  pub ledger_version : LedgerVersion
  pub dust : List StoredDustBatch
  pub unshielded : List StoredUnshielded
  pub shielded : List StoredShielded

-- `tagged_to_hex`, `tagged_from_hex`, `hex::encode` and `FromHex`, on the values that are stored.
pub record Encoding (D : Type 0) : Type 0 where
  pub spends_to_hex : List D → Option (List ℕ)
  pub spends_from_hex : List ℕ → Option (List D)
  pub nullifier_to_hex : ℕ → Option (List ℕ)
  pub nullifier_from_hex : List ℕ → Option ℕ
  pub hash_to_hex : ℕ → List ℕ
  pub hash_from_hex : List ℕ → Option ℕ

-- What is decoded is what was encoded.
pub record RoundTrips {D : Type 0} (c : Encoding D) : Type 0 where
  pub spends : (x : List D) (h : List ℕ) → c.spends_to_hex x ≡ some h → c.spends_from_hex h ≡ some x
  pub nullifier :
      (n : ℕ) (h : List ℕ) → c.nullifier_to_hex n ≡ some h → c.nullifier_from_hex h ≡ some n
  pub hash : (n : ℕ) → c.hash_from_hex (c.hash_to_hex n) ≡ some n

abbrev eq_version : LedgerVersion → LedgerVersion → Bool
eq_version LedgerVersion.v8 LedgerVersion.v8 = true
eq_version LedgerVersion.v9 LedgerVersion.v9 = true
eq_version _ _ = false

module _ {D : Type 0} (c : Encoding D) where
  abbrev store_dust : DustBatch D → Result WalletError StoredDustBatch
  store_dust b = ok_or (c.spends_to_hex b.spends) WalletError.storage >>= λ hex. ok (record {
    spends_hex = hex;
    reserved_at_secs = b.reserved_at;
    expires_at_secs = b.expires_at;
  })

  abbrev load_dust : StoredDustBatch → Result WalletError (DustBatch D)
  load_dust s = ok_or (c.spends_from_hex s.spends_hex) WalletError.storage >>= λ spends.
      ok (record {
        spends = spends;
        reserved_at = s.reserved_at_secs;
        expires_at = s.expires_at_secs;
      })

  abbrev store_unshielded : UnshieldedSpend → Result WalletError StoredUnshielded
  store_unshielded e = ok (record {
    intent_hash = c.hash_to_hex e.key.intent_hash;
    output_index = e.key.output_index;
    reserved_at_secs = e.reserved_at;
    expires_at_secs = e.expires_at;
  })

  abbrev load_unshielded : StoredUnshielded → Result WalletError UnshieldedSpend
  load_unshielded s = ok_or (c.hash_from_hex s.intent_hash) WalletError.storage >>= λ hash.
      ok (record {
        key = record { intent_hash = hash; output_index = s.output_index };
        reserved_at = s.reserved_at_secs;
        expires_at = s.expires_at_secs;
      })

  abbrev store_shielded : ShieldedSpend → Result WalletError StoredShielded
  store_shielded e = ok_or (c.nullifier_to_hex e.nullifier) WalletError.storage >>= λ hex.
      ok (record {
        nullifier_hex = hex;
        reserved_at_secs = e.reserved_at;
        expires_at_secs = e.expires_at;
      })

  abbrev load_shielded : StoredShielded → Result WalletError ShieldedSpend
  load_shielded s =
      ok_or (c.nullifier_from_hex s.nullifier_hex) WalletError.storage >>= λ nullifier. ok (record {
        nullifier = nullifier;
        reserved_at = s.reserved_at_secs;
        expires_at = s.expires_at_secs;
      })

  -- `ledger` is the generation of this build, `super::LEDGER`.
  unfoldable pub to_stored : LedgerVersion → Reservations D → Result WalletError StoredPending
  to_stored ledger p = traverse store_dust p.dust >>= λ dust.
      (traverse store_unshielded p.unshielded >>= λ unshielded.
      (traverse store_shielded p.shielded >>= λ shielded. ok (record {
        ledger_version = ledger;
        dust = dust;
        unshielded = unshielded;
        shielded = shielded;
      })))

  unfoldable pub from_stored : LedgerVersion → StoredPending → Result WalletError (Reservations D)
  from_stored ledger stored =
      if not (eq_version stored.ledger_version ledger)
      then ok no_reservations
      else traverse load_dust stored.dust >>= λ dust.
          (traverse load_unshielded stored.unshielded >>= λ unshielded.
          (traverse load_shielded stored.shielded >>= λ shielded.
          ok (record { dust = dust; unshielded = unshielded; shielded = shielded })))

eq_version_refl : (v : LedgerVersion) → eq_version v v ≡ true
eq_version_refl LedgerVersion.v8 = refl
eq_version_refl LedgerVersion.v9 = refl

dropped :
    {D : Type 0} (c : Encoding D) (ledger other : LedgerVersion)
    → other ≢ ledger
    → (stored : StoredPending) → stored.ledger_version ≡ ledger
    → from_stored c other stored ≡ ok no_reservations
unfolding from_stored
dropped c LedgerVersion.v8 LedgerVersion.v8 ne stored e = absurd (ne refl)
dropped c LedgerVersion.v8 LedgerVersion.v9 ne stored e = rw e
dropped c LedgerVersion.v9 LedgerVersion.v8 ne stored e = rw e
dropped c LedgerVersion.v9 LedgerVersion.v9 ne stored e = absurd (ne refl)

ok-injective : {E A : Type 0} {a b : A} → ◌≡◌ {A = Result E A} (ok a) (ok b) → a ≡ b
ok-injective h = cc

-- Loading each element of a stored list gives the list back.
traverse-inverse :
    {E A B : Type 0} (f : A → Result E B) (g : B → Result E A)
    → ((a : A) (b : B) → f a ≡ ok b → g b ≡ ok a)
    → (xs : List A) (ys : List B) → traverse f xs ≡ ok ys
    → traverse g ys ≡ ok xs
traverse-inverse f g inverse [] ys h = let same : ys ≡ [] = cc in rw same
traverse-inverse {E} {A} {B} f g inverse (x ∷ xs) ys h =
    let (y, fx, rest) = >>=-eq-ok (f x) (λ y. (traverse f xs >>= λ ys. ok (y ∷ ys))) h in
    let (ys', fxs, done) = >>=-eq-ok (traverse f xs) (λ ys. ok (y ∷ ys)) rest in
    consed y ys' (inverse x y fx) (traverse-inverse f g inverse xs ys' fxs) (cc)
  where
    consed :
        (y : B) (ys' : List B)
        → g y ≡ ok x
        → traverse g ys' ≡ ok xs
        → ys ≡ y ∷ ys'
        → traverse g ys ≡ ok (x ∷ xs)
    consed y ys' gy gys same = rw same (rw (gy, gys))

module _ {D : Type 0} (c : Encoding D) (laws : RoundTrips c) where
  dust_back : (b : DustBatch D) (s : StoredDustBatch) → store_dust c b ≡ ok s → load_dust c s ≡ ok b
  dust_back b s h = ground (arith, laws.spends b.spends s.spends_hex)

  unshielded_back :
      (e : UnshieldedSpend) (s : StoredUnshielded)
      → store_unshielded c e ≡ ok s
      → load_unshielded c s ≡ ok e
  unshielded_back e s h = ground (arith, laws.hash e.key.intent_hash)

  shielded_back :
      (e : ShieldedSpend) (s : StoredShielded)
      → store_shielded c e ≡ ok s
      → load_shielded c s ≡ ok e
  shielded_back e s h = ground (arith, laws.nullifier e.nullifier s.nullifier_hex)

  loaded :
      (ledger : LedgerVersion) (p : Reservations D) (dust : List StoredDustBatch)
      (unshielded : List StoredUnshielded) (shielded : List StoredShielded)
      → traverse (store_dust c) p.dust ≡ ok dust
      → traverse (store_unshielded c) p.unshielded ≡ ok unshielded
      → traverse (store_shielded c) p.shielded ≡ ok shielded
      → from_stored c ledger (record {
        ledger_version = ledger;
        dust = dust;
        unshielded = unshielded;
        shielded = shielded;
      })
        ≡ ok p
  unfolding from_stored
  loaded ledger p dust unshielded shielded d u s = rw (
    eq_version_refl ledger,
    traverse-inverse (store_dust c) (load_dust c) dust_back p.dust dust d,
    traverse-inverse (store_unshielded c) (load_unshielded c) unshielded_back p.unshielded
        unshielded u,
    traverse-inverse (store_shielded c) (load_shielded c) shielded_back p.shielded shielded s,
  )

  -- Reservations that are stored by a build of generation `ledger` load as they were in a build of
  -- that generation, and as no reservations at all in a build of another one, whatever its codecs.
  -- What is assumed is that decoding undoes encoding.
  pub from_stored-to_stored :
      (ledger other : LedgerVersion) (there : Encoding D) (p : Reservations D)
      (stored : StoredPending)
      → other ≢ ledger
      → to_stored c ledger p ≡ ok stored
      → (from_stored c ledger stored ≡ ok p) × (from_stored there other stored ≡ ok no_reservations)
  unfolding to_stored
  from_stored-to_stored ledger other there p stored ne h =
      let (dust, d, rest) = >>=-eq-ok (traverse (store_dust c) p.dust) _ h in
      let (unshielded, u, rest') = >>=-eq-ok (traverse (store_unshielded c) p.unshielded) _ rest in
      let (shielded, s, done) = >>=-eq-ok (traverse (store_shielded c) p.shielded) _ rest' in
      (
        subst (λ st. from_stored c ledger st ≡ ok p) (ok-injective done)
            (loaded ledger p dust unshielded shielded d u s),
        subst (λ st. from_stored there other st ≡ ok no_reservations) (ok-injective done)
            (dropped there ledger other ne _ refl),
      )
