-- ===== src/PrivateState/Store/Delete.antt =====
-- midnight-private-state/src/fs.rs: a rollback on a journal that lists a chain.
use midnight_rs.Base.{
  ℕ, zero, suc, ◌≤◌, ◌≡◌, refl, sym, ◌∙◌, ap, subst, Bool, true, false, ◌||◌, ◌&&◌, not, Option,
  none, some, List, [], ◌∷◌, ◌++◌, reverse, arith, ◌==◌, retain, retain-append, length, append-nil,
  append_assoc, Result, ok, err, if◌then◌else◌, ◌⊎◌, inl, inr, reverse-cons, reverse-reverse,
}
use midnight_rs.PrivateState.Types.{Snapshot, PrivateStateError}
use midnight_rs.PrivateState.Graph.{hashes}
use midnight_rs.PrivateState.Graph.Shuffle.{
  Shuffles, retain-Shuffles, any-Shuffles, length-Shuffles,
}
use midnight_rs.PrivateState.Graph.Chain.{IsChain, Linked, Distinct, has, has-append}
use midnight_rs.PrivateState.Graph.Walk.{walk_children-chain, fresh_in_chain, hashes-append}
use midnight_rs.PrivateState.Store.{Directory, is_listed, remove_file, remove_files, rollback_from}

-- How often a hash is listed.
abbrev pub times : ℕ → List Snapshot → ℕ
times h files = length (retain (λ s. s.extrinsic_hash == h) files)

times-has : (h : ℕ) (files : List Snapshot) → is_listed files h ≡ true → 1 ≤ times h files
times-has h [] e = cc
times-has h (s ∷ files) e = ground (arith, times-has h files)

times-lacks : (h : ℕ) (files : List Snapshot) → is_listed files h ≡ false → times h files ≡ 0
times-lacks h [] e = refl
times-lacks h (s ∷ files) e = ground (arith, times-lacks h files)

pub times-Distinct : (h : ℕ) (c : List Snapshot) → Distinct c → times h c ≤ 1
times-Distinct h [] d = omega arith
times-Distinct h (s ∷ c) d =
    step (s.extrinsic_hash == h)
      (λ e. times-lacks h c (subst (λ n. has c n ≡ false) (eq_of_== s.extrinsic_hash h e) d.0))
      (times-Distinct h c d.1)
  where
    eq_of_== : (a b : ℕ) → (a == b) ≡ true → a ≡ b
    eq_of_== a b e = ground arith

    step :
        (b : Bool)
        → (b ≡ true → times h c ≡ 0)
        → times h c ≤ 1
        → length (
            if b
            then s ∷ retain (λ t. t.extrinsic_hash == h) c
            else retain (λ t. t.extrinsic_hash == h) c)
          ≤ 1
    step true e few = omega (arith, e refl)
    step false e few = few

kept_all :
    (h : ℕ) (files : List Snapshot)
    → is_listed files h ≡ false
    → retain (λ s. not (s.extrinsic_hash == h)) files ≡ files
kept_all h [] e = refl
kept_all h (s ∷ files) e = ground (arith, kept_all h files)

-- Where a hash is listed once at most, removing its last file removes all of its files.
remove-eq-retain :
    (h : ℕ) (files : List Snapshot)
    → times h files ≤ 1
    → remove_file h files ≡ retain (λ s. not (s.extrinsic_hash == h)) files
remove-eq-retain h [] few = refl
remove-eq-retain h (s ∷ files) few =
    ground
      (arith, times-has h files, times-lacks h files, remove-eq-retain h files, kept_all h files)

-- The last snapshot of a chain leaves the chain before it.
remove_last :
    (files before : List Snapshot) (s : Snapshot)
    → Shuffles files (before ++ s ∷ [])
    → Distinct (before ++ s ∷ [])
    → Shuffles (remove_file s.extrinsic_hash files) before
remove_last files before s shuffled d =
    let h = s.extrinsic_hash in
    let few : times h files ≤ 1 = omega (
      arith,
      length-Shuffles (retain-Shuffles (λ t. t.extrinsic_hash == h) shuffled),
      times-Distinct h (before ++ s ∷ []) d,
    ) in
    let others : retain (λ t. not (t.extrinsic_hash == h)) (before ++ s ∷ []) ≡ before =
      retain-append (λ t. not (t.extrinsic_hash == h)) before (s ∷ [])
      ∙ ground (arith, kept_all h before (fresh_in_chain before s [] d), append-nil before) in
    subst (λ l. Shuffles l before) (sym (remove-eq-retain h files few))
      (subst (Shuffles _) others (retain-Shuffles (λ t. not (t.extrinsic_hash == h)) shuffled))

Linked-prefix :
    (prev : Option ℕ) (before rest : List Snapshot)
    → Linked prev (before ++ rest)
    → Linked prev before
Linked-prefix prev [] rest l = tt
Linked-prefix prev (s ∷ before) rest l =
    (l.0, Linked-prefix (some s.extrinsic_hash) before rest l.1)

Distinct-prefix : (before rest : List Snapshot) → Distinct (before ++ rest) → Distinct before
Distinct-prefix [] rest d = tt
Distinct-prefix (s ∷ before) rest d = (
  left_of (has before s.extrinsic_hash) (has rest s.extrinsic_hash)
      (sym (has-append before rest s.extrinsic_hash) ∙ d.0),
  Distinct-prefix before rest d.1,
)
  where
    left_of : (a b : Bool) → (a || b) ≡ false → a ≡ false
    left_of a b e = ground arith

-- The first snapshots of a chain are a chain.
pub IsChain-prefix : (before rest : List Snapshot) → IsChain (before ++ rest) → IsChain before
IsChain-prefix before rest c = record {
  linked = Linked-prefix none before rest c.linked;
  distinct = Distinct-prefix before rest c.distinct;
}

-- What a rollback that began with `rest` leaves: the chain before it and a first part of `rest`,
-- which is empty if the rollback got through.
pub record Cut (before rest files : List Snapshot) (through : Bool) : Type 0 where
  pub kept : List Snapshot
  pub dropped : List Snapshot
  pub parts : rest ≡ kept ++ dropped
  pub listed : Shuffles files (before ++ kept)
  pub whole : (through ≡ false) ⊎ (kept ≡ [])

snoc_parts :
    (rest kept dropped : List Snapshot) (s : Snapshot)
    → rest ≡ kept ++ dropped
    → rest ++ s ∷ [] ≡ kept ++ (dropped ++ s ∷ [])
snoc_parts rest kept dropped s e = rw e (append_assoc kept dropped (s ∷ []))

append_end :
    (before backwards : List Snapshot) (s : Snapshot)
    → before ++ reverse (s ∷ backwards) ≡ (before ++ reverse backwards) ++ s ∷ []
append_end before backwards s =
    ap (λ l. before ++ l) (reverse-cons s backwards)
    ∙ sym (append_assoc before (reverse backwards) (s ∷ []))

Distinct-end :
    (before backwards : List Snapshot) (s : Snapshot)
    → Distinct (before ++ reverse (s ∷ backwards))
    → Distinct (before ++ reverse backwards)
Distinct-end before backwards s d =
    Distinct-prefix (before ++ reverse backwards) (s ∷ [])
      (subst Distinct (append_end before backwards s) d)

remove_end :
    (before backwards files : List Snapshot) (s : Snapshot)
    → Shuffles files (before ++ reverse (s ∷ backwards))
    → Distinct (before ++ reverse (s ∷ backwards))
    → Shuffles (remove_file s.extrinsic_hash files) (before ++ reverse backwards)
remove_end before backwards files s shuffled d =
    let e = append_end before backwards s in
    remove_last files (before ++ reverse backwards) s (subst (Shuffles files) e shuffled)
      (subst Distinct e d)

one_more :
    (before backwards : List Snapshot) (s : Snapshot) (files : List Snapshot) (through : Bool)
    → Cut before (reverse backwards) files through
    → Cut before (reverse (s ∷ backwards)) files through
one_more before backwards s files through cut = record {
  kept = cut.kept;
  dropped = cut.dropped ++ s ∷ [];
  parts =
      reverse-cons s backwards ∙ snoc_parts (reverse backwards) cut.kept cut.dropped s cut.parts;
  listed = cut.listed;
  whole = cut.whole;
}

-- The removals from the chain's end, whose snapshots are given last first.
Cut-back :
    (backwards before files : List Snapshot) (failing : Option ℕ)
    → Shuffles files (before ++ reverse backwards)
    → Distinct (before ++ reverse backwards)
    → let (files', done) = remove_files (hashes backwards) failing files in
      Cut before (reverse backwards) files' done
unfolding remove_files
Cut-back [] before files failing shuffled d = record {
  kept = [];
  dropped = [];
  parts = refl;
  listed = shuffled;
  whole = inr refl;
}
Cut-back (s ∷ backwards) before files none shuffled d = one_more before backwards s _ _ (
    Cut-back backwards before (remove_file s.extrinsic_hash files) none
      (remove_end before backwards files s shuffled d) (Distinct-end before backwards s d))
Cut-back (s ∷ backwards) before files (some zero) shuffled d = record {
  kept = reverse (s ∷ backwards);
  dropped = [];
  parts = sym (append-nil (reverse (s ∷ backwards)));
  listed = shuffled;
  whole = inl refl;
}
Cut-back (s ∷ backwards) before files (some (suc n)) shuffled d = one_more before backwards s _ _ (
    Cut-back backwards before (remove_file s.extrinsic_hash files) (some n)
      (remove_end before backwards files s shuffled d) (Distinct-end before backwards s d))

hashes-reverse : (c : List Snapshot) → hashes (reverse c) ≡ reverse (hashes c)
hashes-reverse [] = refl
hashes-reverse (s ∷ c) =
    ap hashes (reverse-cons s c)
    ∙ hashes-append (reverse c) (s ∷ [])
    ∙ ap (λ l. l ++ s.extrinsic_hash ∷ []) (hashes-reverse c)
    ∙ sym (reverse-cons s.extrinsic_hash (hashes c))

Cut-from :
    (before rest files : List Snapshot) (failing : Option ℕ)
    → Shuffles files (before ++ rest)
    → IsChain (before ++ rest)
    → let (files', done) = remove_files (reverse (hashes rest)) failing files in
      Cut before rest files' done
Cut-from before rest files failing shuffled c =
    let cut =
      Cut-back (reverse rest) before files failing (rw (reverse-reverse rest) shuffled)
        (rw (reverse-reverse rest) c.distinct) in
    rw (← hashes-reverse rest) (rw (reverse-reverse rest) at cut)

abbrev pub is_done : {A : Type 0} → Result PrivateStateError A → Bool
is_done (ok a) = true
is_done (err e) = false

listed_in_chain :
    (before : List Snapshot) (s : Snapshot) (rest : List Snapshot)
    → has (before ++ s ∷ rest) s.extrinsic_hash ≡ true
listed_in_chain before s rest =
    has-append before (s ∷ rest) s.extrinsic_hash
    ∙ here (has before s.extrinsic_hash) s.extrinsic_hash
  where
    here : (b : Bool) (h : ℕ) → (b || ((h == h) || has rest h)) ≡ true
    here b h = ground arith

abbrev finish : Bool → Bool → Result PrivateStateError (Unit {0})
finish done synced = if done && synced then ok tt else err PrivateStateError.io

-- A rollback from a snapshot of the chain comes down to the removals.
rollback_from-removals :
    (failing : Option ℕ) (synced : Bool) (dir : Directory)
    → (before : List Snapshot) (s : Snapshot) (rest : List Snapshot)
    → Shuffles dir.files (before ++ s ∷ rest)
    → IsChain (before ++ s ∷ rest)
    → rollback_from s.extrinsic_hash failing synced dir
      ≡ let (files, done) = remove_files (reverse (hashes (s ∷ rest))) failing dir.files in
        (record dir { files = files }, finish done synced)
unfolding rollback_from
rollback_from-removals failing synced dir before s rest shuffled c =
    rw
      (
        any-Shuffles (λ t. t.extrinsic_hash == s.extrinsic_hash) shuffled
            ∙ listed_in_chain before s rest,
        walk_children-chain dir.files (before ++ s ∷ rest) shuffled c before (s ∷ rest) refl,
      )
      refl

answered :
    {before rest files : List Snapshot} (done synced : Bool)
    → Cut before rest files done
    → Cut before rest files (is_done (finish done synced))
answered true true cut = cut
answered true false cut = record {
  kept = cut.kept;
  dropped = cut.dropped;
  parts = cut.parts;
  listed = cut.listed;
  whole = inl refl;
}
answered false synced cut = record {
  kept = cut.kept;
  dropped = cut.dropped;
  parts = cut.parts;
  listed = cut.listed;
  whole = inl refl;
}

Cut-IsChain :
    {before rest files : List Snapshot} {through : Bool}
    → IsChain (before ++ rest)
    → (cut : Cut before rest files through) → IsChain (before ++ cut.kept)
Cut-IsChain {before} c cut = IsChain-prefix (before ++ cut.kept) cut.dropped (
    subst IsChain (ap (λ l. before ++ l) cut.parts ∙ sym (append_assoc before cut.kept cut.dropped))
      c)

-- However the file system fails during a rollback from a snapshot of a chain, the directory is left
-- with the snapshots before it and a first part of the others, which is again a chain; if the
-- rollback answers ok, nothing of the others is left.
pub rollback_from-cuts :
    (failing : Option ℕ) (synced : Bool) (dir : Directory)
    → (before : List Snapshot) (s : Snapshot) (rest : List Snapshot)
    → Shuffles dir.files (before ++ s ∷ rest)
    → IsChain (before ++ s ∷ rest)
    → let (dir', answer) = rollback_from s.extrinsic_hash failing synced dir in
      (cut : Cut before (s ∷ rest) dir'.files (is_done answer)) × IsChain (before ++ cut.kept)
rollback_from-cuts failing synced dir before s rest shuffled c =
    rw (rollback_from-removals failing synced dir before s rest shuffled c) (
      let cut =
        answered (remove_files (reverse (hashes (s ∷ rest))) failing dir.files).1 synced
          (Cut-from before (s ∷ rest) dir.files failing shuffled c) in
      (cut, Cut-IsChain c cut))

remove_files-none : (hs : List ℕ) (files : List Snapshot) → (remove_files hs none files).1 ≡ true
unfolding remove_files
remove_files-none [] files = refl
remove_files-none (h ∷ hs) files = remove_files-none hs (remove_file h files)

nothing_kept :
    {before rest files : List Snapshot} {through : Bool}
    → Cut before rest files through
    → through ≡ true
    → Shuffles files before
nothing_kept {before} {files} cut e = elim cut.whole [
  | inl stopped ↦ absurd (cc)
  | inr empty ↦ subst (Shuffles files) (ap (λ l. before ++ l) empty ∙ append-nil before) cut.listed
]

-- On a file system that does not fail, a rollback from a snapshot of a chain answers ok and leaves
-- exactly the snapshots before it.
pub rollback_from-removes :
    (dir : Directory) (before : List Snapshot) (s : Snapshot) (rest : List Snapshot)
    → Shuffles dir.files (before ++ s ∷ rest)
    → IsChain (before ++ s ∷ rest)
    → let (dir', answer) = rollback_from s.extrinsic_hash none true dir in
      (answer ≡ ok tt) × Shuffles dir'.files before
rollback_from-removes dir before s rest shuffled c =
    let doomed = reverse (hashes (s ∷ rest)) in
    let done = remove_files-none doomed dir.files in
    rw (rollback_from-removals none true dir before s rest shuffled c)
      (rw done refl, nothing_kept (Cut-from before (s ∷ rest) dir.files none shuffled c) done)
