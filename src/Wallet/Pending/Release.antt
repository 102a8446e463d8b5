-- ===== src/Wallet/Pending/Release.antt =====
-- midnight-wallet/src/per_ledger/pending.rs: a release of what a build reserved.
use midnight_rs.Base.{
  ℕ, ◌≡◌, refl, ap, ◌∙◌, Bool, true, false, ◌&&◌, ◌||◌, not, List, [], ◌∷◌, ◌++◌, map, arith, ◌==◌,
  is_empty, any, all, retain, retain-append, any-append, append-nil, append_assoc, fun_ext,
}
use midnight_rs.Wallet.Types.{SpentUtxoKey, eq_key, contains_key}
use midnight_rs.Wallet.Pending.{
  Reservations, ReservedInput, contains, reserve, batch_spends, spends_any_of, release,
}

-- The inputs of one build, with its stamp, as the build reports them.
abbrev pub stamped : {T : Type 0} → ℕ → List T → List (ReservedInput T)
stamped at inputs = map (λ input. record { input = input; reserved_at = at }) inputs

-- All nullifiers of a build's batches.
abbrev pub nullifiers : {D : Type 0} → (D → ℕ) → List (List D) → List ℕ
nullifiers old_nullifier [] = []
nullifiers old_nullifier (spends ∷ batches) =
    map old_nullifier spends ++ nullifiers old_nullifier batches

retain-none {ℓ} :
    {A : Type ℓ} (named : A → Bool) (xs : List A)
    → any named xs ≡ false
    → retain (λ x. not (named x)) xs ≡ xs
retain-none named [] h = refl
retain-none named (x ∷ xs) h = ground (arith, retain-none named xs)

retain-all {ℓ} :
    {A : Type ℓ} (named : A → Bool) (xs : List A)
    → all named xs ≡ true
    → retain (λ x. not (named x)) xs ≡ []
retain-all named [] h = refl
retain-all named (x ∷ xs) h = ground (arith, retain-all named xs)

-- What was there stays, and all that was added goes.
retain-added {ℓ} :
    {A : Type ℓ} (named : A → Bool) (old new : List A)
    → any named old ≡ false
    → all named new ≡ true
    → retain (λ x. not (named x)) (old ++ new) ≡ old
retain-added named old new kept gone =
    rw
      (
        retain-append (λ x. not (named x)) old new,
        retain-none named old kept,
        retain-all named new gone,
      )
      (append-nil old)

-- A stamped input names an entry if the stamps agree and the input does.
any-stamped :
    {T : Type 0} (at stamp : ℕ) (test : T → Bool) (inputs : List T)
    → any (λ d. d.reserved_at == stamp && test d.input) (stamped at inputs)
      ≡ (at == stamp && any test inputs)
any-stamped at stamp test [] = ground arith
any-stamped at stamp test (x ∷ inputs) = ground (arith, any-stamped at stamp test inputs)

-- What a release of stamped inputs does to the entries of one kind, of which `new` were just reserved.
handed_back :
    {A T : Type 0} (at : ℕ) (stamp : A → ℕ) (test : A → T → Bool) (inputs : List T)
    (old new : List A)
    → any (λ x. at == stamp x && any (test x) inputs) old ≡ false
    → all (λ x. at == stamp x && any (test x) inputs) new ≡ true
    → retain
        (λ x. not (any (λ d. d.reserved_at == stamp x && test x d.input) (stamped at inputs)))
        (old ++ new)
      ≡ old
handed_back at stamp test inputs old new kept gone =
    ap (λ p. retain p (old ++ new))
      (fun_ext (λ x. ap not (any-stamped at (stamp x) (test x) inputs)))
    ∙ retain-added (λ x. at == stamp x && any (test x) inputs) old new kept gone

all-map {ℓ κ} :
    {A : Type ℓ} {B : Type κ} (named : B → Bool) (f : A → B) (xs : List A)
    → all named (map f xs) ≡ all (λ x. named (f x)) xs
all-map named f [] = refl
all-map named f (x ∷ xs) = rw (all-map named f xs)

-- Each element of a list is found there, after any others.
all-found {ℓ} :
    {A : Type ℓ} (test : A → A → Bool) (pre xs : List A)
    → ((x : A) → test x x ≡ true)
    → all (λ x. any (λ y. test y x) (pre ++ xs)) xs ≡ true
all-found test pre [] same = refl
all-found test pre (x ∷ xs) same =
    let rest = all-found test (pre ++ (x ∷ [])) xs same in
    rw (any-append (λ y. test y x) pre (x ∷ xs), same x)
      (rw (or_true (any (λ y. test y x) pre)) (rw (append_assoc pre (x ∷ []) xs) at rest))
  where
    or_true : (b : Bool) → (b || true) ≡ true
    or_true true = refl
    or_true false = refl

-- Each batch with a spend has a nullifier among those of all batches, after any others.
batches-found :
    {D : Type 0} (old_nullifier : D → ℕ) (at until : ℕ) (pre : List ℕ) (batches : List (List D))
    → all (λ spends. not (is_empty spends)) batches ≡ true
    → all
        (λ spends.
          spends_any_of old_nullifier
            (record { spends = spends; reserved_at = at; expires_at = until })
            (pre ++ nullifiers old_nullifier batches))
        batches
      ≡ true
batches-found old_nullifier at until pre [] h = refl
batches-found old_nullifier at until pre ([] ∷ batches) h = cc
batches-found {D} old_nullifier at until pre ((s ∷ spends) ∷ batches) h =
    let own = old_nullifier s ∷ map old_nullifier spends in
    let rest = batches-found old_nullifier at until (pre ++ own) batches h in
    let here : any (λ n. old_nullifier s == n || any (λ t. old_nullifier t == n) spends)
          (pre ++ (own ++ nullifiers old_nullifier batches))
        ≡ true =
      rw
        (any-append (λ n. old_nullifier s == n || any (λ t. old_nullifier t == n) spends) pre
          (own ++ nullifiers old_nullifier batches))
        ground arith in
    rw here (rw (append_assoc pre own (nullifiers old_nullifier batches)) at rest)

==-refl : (n : ℕ) → (n == n) ≡ true
==-refl n = ground arith

module _ {D : Type 0} (old_nullifier : D → ℕ) where
  -- A build that reserves its inputs and hands them back, all under its one stamp, leaves the
  -- reservations as they were, if each of its Dust batches has a spend and no other reservation holds
  -- one of its inputs under the same stamp.
  pub release-reserve :
      (batches : List (List D)) (keys : List SpentUtxoKey) (coins : List ℕ) (at until : ℕ)
      (p : Reservations D)
      → all (λ spends. not (is_empty spends)) batches ≡ true
      → any
          (λ b.
            at == b.reserved_at && spends_any_of old_nullifier b (nullifiers old_nullifier batches))
          p.dust
        ≡ false
      → any (λ e. at == e.reserved_at && contains_key keys e.key) p.unshielded ≡ false
      → any (λ e. at == e.reserved_at && contains coins e.nullifier) p.shielded ≡ false
      → release old_nullifier
          (stamped at (nullifiers old_nullifier batches))
          (stamped at keys)
          (stamped at coins)
          (reserve batches keys coins at until p)
        ≡ p
  unfolding release reserve
  release-reserve batches keys coins at until p nonempty dust unshielded shielded = λ i. record {
    dust =
        handed_back at (λ b. b.reserved_at) (batch_spends old_nullifier)
          (nullifiers old_nullifier batches) p.dust
          (map (λ spends. record { spends = spends; reserved_at = at; expires_at = until }) batches)
          dust
          (all-map _ _ batches
            ∙ rw (==-refl at) (batches-found old_nullifier at until [] batches nonempty))
          i;
    unshielded =
        handed_back at (λ e. e.reserved_at) (λ e k. eq_key k e.key) keys p.unshielded
          (map (λ key. record { key = key; reserved_at = at; expires_at = until }) keys) unshielded
          (all-map _ _ keys ∙ rw (==-refl at) (all-found eq_key [] keys (λ k. ground arith))) i;
    shielded =
        handed_back at (λ e. e.reserved_at) (λ e n. n == e.nullifier) coins p.shielded
          (map (λ n. record { nullifier = n; reserved_at = at; expires_at = until }) coins) shielded
          (all-map _ _ coins ∙ rw (==-refl at) (all-found ◌==◌ [] coins ==-refl)) i;
  }
