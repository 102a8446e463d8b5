-- ===== src/PrivateState/Store/Confirm.antt =====
-- midnight-private-state/src/fs.rs: `confirm` on the snapshots of a journal.
use midnight_rs.Base.{
  ℕ, ◌≡◌, ◌≢◌, refl, sym, ◌∙◌, ap, true, false, ◌&&◌, not, Option, none, some, List, [], ◌∷◌, arith,
  ◌==◌, ok, err, if◌then◌else◌, inl, inr, Bool-cases, is_some, Option-cases,
}
use midnight_rs.PrivateState.Types.{Snapshot, PrivateStateError, eq_option}
use midnight_rs.PrivateState.Graph.Shuffle.{Shuffles}
use midnight_rs.PrivateState.Graph.Chain.{Linked, Distinct, has}
use midnight_rs.PrivateState.Store.{
  Directory, Write, Answer, find_snapshot, rewrite_file, rewrite, is_confirmed, confirmed_at,
  with_height, confirm,
}
use midnight_rs.PrivateState.Store.Append.{IsJournal, eq_option-eq}

-- What a rewrite keeps: the two fields that make the chain.
abbrev Keeps : (Snapshot → Snapshot) → Type 0
Keeps f =
    (s : Snapshot) → (f s).extrinsic_hash ≡ s.extrinsic_hash × ((f s).depends_on ≡ s.depends_on)

-- The first file that matches is rewritten, in a directory that lists a chain.
data Same : List Snapshot → List Snapshot → Type 0 where
  nil : Same [] []
  cons :
      (s t : Snapshot) {ss ts : List Snapshot}
      → s.extrinsic_hash ≡ t.extrinsic_hash
      → s.depends_on ≡ t.depends_on
      → Same ss ts
      → Same (s ∷ ss) (t ∷ ts)

Same-refl : (ss : List Snapshot) → Same ss ss
Same-refl [] = Same.nil
Same-refl (s ∷ ss) = Same.cons s s refl refl (Same-refl ss)

rewrite_file-Same :
    (h : ℕ) (f : Snapshot → Snapshot)
    → Keeps f
    → (files : List Snapshot) → Same (rewrite_file h f files) files
rewrite_file-Same h f k [] = Same.nil
rewrite_file-Same h f k (s ∷ files) = elim (Bool-cases (s.extrinsic_hash == h)) [
  | inl hit ↦ rw hit (Same.cons (f s) s (k s).0 (k s).1 (Same-refl files))
  | inr miss ↦ rw miss (Same.cons s s refl refl (rewrite_file-Same h f k files))
]

Same-Linked :
    (prev : Option ℕ) {ss ts : List Snapshot} → Same ss ts → Linked prev ts → Linked prev ss
Same-Linked prev Same.nil l = tt
Same-Linked prev (Same.cons s t h d same) l =
    (d ∙ l.0, Same-Linked (some s.extrinsic_hash) same (rw h l.1))

Same-has : {ss ts : List Snapshot} (h : ℕ) → Same ss ts → has ss h ≡ has ts h
Same-has h Same.nil = refl
Same-has h (Same.cons s t e d same) = rw (e, Same-has h same) refl

Same-Distinct : {ss ts : List Snapshot} → Same ss ts → Distinct ts → Distinct ss
Same-Distinct Same.nil d = tt
Same-Distinct (Same.cons s t e p same) d =
    (rw (Same-has s.extrinsic_hash same, e) d.0, Same-Distinct same d.1)

-- A directory that agrees with one that lists a chain lists a chain.
Same-Shuffles :
    {files chain : List Snapshot}
    → Shuffles files chain
    → {files' : List Snapshot} → Same files' files
    → (chain' : List Snapshot) × Shuffles files' chain' × Same chain' chain
Same-Shuffles Shuffles.nil Same.nil = ([], Shuffles.nil, Same.nil)
Same-Shuffles (Shuffles.keep x p) (Same.cons s t e d same) =
    let (chain', listed, agrees) = Same-Shuffles p same in
    (s ∷ chain', Shuffles.keep s listed, Same.cons s t e d agrees)
Same-Shuffles (Shuffles.swap x y xs) (Same.cons s t e d (Same.cons u v {ss} f g same)) =
    (u ∷ s ∷ ss, Shuffles.swap s u ss, Same.cons u v f g (Same.cons s t e d same))
Same-Shuffles (Shuffles.trans p q) same =
    let (between, listed, agrees) = Same-Shuffles p same in
    let (chain', listed', agrees') = Same-Shuffles q agrees in
    (chain', Shuffles.trans listed listed', agrees')

Same-IsJournal :
    {files files' : List Snapshot} → Same files' files → IsJournal files → IsJournal files'
Same-IsJournal same journal =
    let (chain', listed, agrees) = Same-Shuffles journal.listed same in
    record {
      chain = chain';
      listed = listed;
      ordered = record {
        linked = Same-Linked none agrees journal.ordered.linked;
        distinct = Same-Distinct agrees journal.ordered.distinct;
      };
    }

rewrite-IsJournal :
    (write : Write) (h : ℕ) (f : Snapshot → Snapshot) (dir : Directory)
    → Keeps f
    → IsJournal dir.files
    → IsJournal (rewrite write h f dir).0.files
rewrite-IsJournal Write.written h f dir k journal =
    Same-IsJournal (rewrite_file-Same h f k dir.files) journal
rewrite-IsJournal Write.failed h f dir k journal = journal
rewrite-IsJournal Write.failed_left h f dir k journal =
    Same-IsJournal (rewrite_file-Same h f k dir.files) journal

-- The ways that a confirmation goes.
data Outcome (hash : ℕ) (height : Option ℕ) (block : ℕ) (write : Write) (dir : Directory)
    : Answer (Unit {0}) → Type 0 where
  refused : (e : PrivateStateError) → Outcome hash height block write dir (dir, err e)
  settled :
      (s : Snapshot)
      → find_snapshot dir.files hash ≡ some s
      → is_confirmed s.status ≡ true
      → s.block_hash ≡ some block
      → Outcome hash height block write dir (dir, ok tt)
  enriched :
      (s : Snapshot)
      → find_snapshot dir.files hash ≡ some s
      → is_confirmed s.status ≡ true
      → s.block_hash ≡ some block
      → Outcome hash height block write dir (rewrite write hash (with_height height) dir)
  confirmed :
      (s : Snapshot)
      → find_snapshot dir.files hash ≡ some s
      → is_confirmed s.status ≡ false
      → Outcome hash height block write dir (rewrite write hash (confirmed_at block height) dir)

confirm-Outcome :
    (hash : ℕ) (height : Option ℕ) (block : ℕ) (write : Write) (dir : Directory)
    → Outcome hash height block write dir (confirm hash height block write dir)
unfolding confirm
confirm-Outcome hash height block write dir = elim (Option-cases (find_snapshot dir.files hash)) [
  | inl e ↦ rw (e, confirm) (Outcome.refused (PrivateStateError.snapshot_not_found hash))
  | inr (snap, e) ↦ elim (Bool-cases (is_confirmed snap.status)) [
    | inr open_yet ↦ rw (e, confirm, open_yet) (Outcome.confirmed snap e open_yet)
    | inl done ↦ elim (Bool-cases (eq_option snap.block_hash (some block))) [
      | inr elsewhere ↦
          rw (e, confirm, done, elsewhere) (Outcome.refused PrivateStateError.confirmed_elsewhere)
      | inl here ↦ elim (Bool-cases (not (is_some snap.block_height) && is_some height)) [
        | inl enrich ↦
            rw (e, confirm, done, here, enrich)
              (Outcome.enriched snap e done (eq_option-eq snap.block_hash (some block) here))
        | inr same ↦
            rw (e, confirm, done, here, same)
              (Outcome.settled snap e done (eq_option-eq snap.block_hash (some block) here))
      ]
    ]
  ]
]

Outcome-IsJournal :
    {hash : ℕ} {height : Option ℕ} {block : ℕ} {write : Write} {dir : Directory}
    {answer : Answer (Unit {0})}
    → Outcome hash height block write dir answer
    → IsJournal dir.files
    → IsJournal answer.0.files
Outcome-IsJournal (Outcome.refused e) journal = journal
Outcome-IsJournal (Outcome.settled s e done here) journal = journal
Outcome-IsJournal {hash} {write} {dir} (Outcome.enriched s e done here) journal =
    rewrite-IsJournal write hash _ dir (λ s. (refl, refl)) journal
Outcome-IsJournal {hash} {write} {dir} (Outcome.confirmed s e open_yet) journal =
    rewrite-IsJournal write hash _ dir (λ s. (refl, refl)) journal

-- A confirmation keeps a journal a journal, however it answers and however its write ends.
pub confirm-IsJournal :
    (hash : ℕ) (height : Option ℕ) (block : ℕ) (write : Write) (dir : Directory)
    → IsJournal dir.files
    → IsJournal (confirm hash height block write dir).0.files
confirm-IsJournal hash height block write dir journal =
    Outcome-IsJournal (confirm-Outcome hash height block write dir) journal

find_snapshot-rewrite_file :
    (h k : ℕ) (f : Snapshot → Snapshot)
    → Keeps f
    → (files : List Snapshot) (s : Snapshot) → find_snapshot files h ≡ some s
    → find_snapshot (rewrite_file k f files) h ≡ some (if h == k then f s else s)
find_snapshot-rewrite_file h k f keeps [] s e = absurd (cc)
find_snapshot-rewrite_file h k f keeps (t ∷ files) s e =
    ground (arith, keeps t, find_snapshot-rewrite_file h k f keeps files s)

-- That the directory has a snapshot under the hash which is confirmed at the block.
pub record ConfirmedAt (hash block : ℕ) (files : List Snapshot) : Type 0 where
  pub snapshot : Snapshot
  pub found : find_snapshot files hash ≡ some snapshot
  pub is_done : is_confirmed snapshot.status ≡ true
  pub at_block : snapshot.block_hash ≡ some block

-- A rewrite that leaves its new file.
rewritten :
    (h block : ℕ) (f : Snapshot → Snapshot) (files : List Snapshot) (s : Snapshot)
    → Keeps f
    → find_snapshot files h ≡ some s
    → is_confirmed (f s).status ≡ true
    → (f s).block_hash ≡ some block
    → ConfirmedAt h block (rewrite_file h f files)
rewritten h block f files s keeps e done here = record {
  snapshot = f s;
  found = find_snapshot-rewrite_file h h f keeps files s e ∙ (ground arith);
  is_done = done;
  at_block = here;
}

rewrite-ok :
    (write : Write) (h block : ℕ) (f : Snapshot → Snapshot) (dir : Directory) (s : Snapshot)
    → Keeps f
    → find_snapshot dir.files h ≡ some s
    → is_confirmed (f s).status ≡ true
    → (f s).block_hash ≡ some block
    → (rewrite write h f dir).1 ≡ ok tt
    → ConfirmedAt h block (rewrite write h f dir).0.files
rewrite-ok Write.written h block f dir s keeps e done here answered =
    rewritten h block f dir.files s keeps e done here
rewrite-ok Write.failed h block f dir s keeps e done here answered = absurd (cc)
rewrite-ok Write.failed_left h block f dir s keeps e done here answered = absurd (cc)

Outcome-ok :
    {hash : ℕ} {height : Option ℕ} {block : ℕ} {write : Write} {dir : Directory}
    {answer : Answer (Unit {0})}
    → Outcome hash height block write dir answer
    → answer.1 ≡ ok tt
    → ConfirmedAt hash block answer.0.files
Outcome-ok (Outcome.refused e) answered = absurd (cc)
Outcome-ok (Outcome.settled s e done here) answered = record {
  snapshot = s;
  found = e;
  is_done = done;
  at_block = here;
}
Outcome-ok {hash} {block} {write} {dir} (Outcome.enriched s e done here) answered =
    rewrite-ok write hash block _ dir s (λ s. (refl, refl)) e done here answered
Outcome-ok {hash} {block} {write} {dir} (Outcome.confirmed s e open_yet) answered =
    rewrite-ok write hash block _ dir s (λ s. (refl, refl)) e refl refl answered

-- Whenever a confirmation answers ok, the directory has a snapshot under its hash that is confirmed
-- at its block.
pub confirm-ok :
    (hash : ℕ) (height : Option ℕ) (block : ℕ) (write : Write) (dir : Directory)
    → (confirm hash height block write dir).1 ≡ ok tt
    → ConfirmedAt hash block (confirm hash height block write dir).0.files
confirm-ok hash height block write dir answered =
    Outcome-ok (confirm-Outcome hash height block write dir) answered

-- A rewrite that changes neither status nor block of a confirmed snapshot.
rewrite_file-keeps :
    (h k block : ℕ) (f : Snapshot → Snapshot) (files : List Snapshot)
    → Keeps f
    → (at : ConfirmedAt h block files)
    → (h ≡ k
        → (is_confirmed (f at.snapshot).status ≡ true) × ((f at.snapshot).block_hash ≡ some block))
    → ConfirmedAt h block (rewrite_file k f files)
rewrite_file-keeps h k block f files keeps at same = elim (Bool-cases (h == k)) [
  | inl e ↦
      let (done, here) = same (ground arith) in
      record {
        snapshot = f at.snapshot;
        found = find_snapshot-rewrite_file h k f keeps files at.snapshot at.found ∙ rw e refl;
        is_done = done;
        at_block = here;
      }
  | inr ne ↦ record {
    snapshot = at.snapshot;
    found = find_snapshot-rewrite_file h k f keeps files at.snapshot at.found ∙ rw ne refl;
    is_done = at.is_done;
    at_block = at.at_block;
  }
]

rewrite-keeps :
    (write : Write) (h k block : ℕ) (f : Snapshot → Snapshot) (dir : Directory)
    → Keeps f
    → (at : ConfirmedAt h block dir.files)
    → (h ≡ k
        → (is_confirmed (f at.snapshot).status ≡ true) × ((f at.snapshot).block_hash ≡ some block))
    → ConfirmedAt h block (rewrite write k f dir).0.files
rewrite-keeps Write.written h k block f dir keeps at same =
    rewrite_file-keeps h k block f dir.files keeps at same
rewrite-keeps Write.failed h k block f dir keeps at same = at
rewrite-keeps Write.failed_left h k block f dir keeps at same =
    rewrite_file-keeps h k block f dir.files keeps at same

Outcome-ConfirmedAt :
    {hash : ℕ} {height : Option ℕ} {block : ℕ} {write : Write} {dir : Directory}
    {answer : Answer (Unit {0})}
    → (h b : ℕ) → Outcome hash height block write dir answer
    → ConfirmedAt h b dir.files
    → ConfirmedAt h b answer.0.files
Outcome-ConfirmedAt h b (Outcome.refused e) at = at
Outcome-ConfirmedAt h b (Outcome.settled s e done here) at = at
Outcome-ConfirmedAt {hash} {write} {dir} h b (Outcome.enriched s e done here) at =
    rewrite-keeps write h hash b _ dir (λ s. (refl, refl)) at (λ same. (at.is_done, at.at_block))
Outcome-ConfirmedAt {hash} {write} {dir} h b (Outcome.confirmed s e open_yet) at =
    rewrite-keeps write h hash b _ dir (λ s. (refl, refl)) at
      (λ same.
        let twice : some at.snapshot ≡ some s =
          sym at.found ∙ ap (find_snapshot dir.files) same ∙ e in
        let s_eq : at.snapshot ≡ s = cc in
        absurd (true_false (sym at.is_done ∙ ap (λ t. is_confirmed t.status) s_eq ∙ open_yet)))
  where
    true_false : true ≢ false
    true_false e = cc

-- A snapshot that is confirmed at a block stays confirmed at that block through any confirmation,
-- under its own hash or another, at that block or another, however it answers and its write ends.
pub confirm-ConfirmedAt :
    (h b : ℕ) (hash : ℕ) (height : Option ℕ) (block : ℕ) (write : Write) (dir : Directory)
    → ConfirmedAt h b dir.files
    → ConfirmedAt h b (confirm hash height block write dir).0.files
confirm-ConfirmedAt h b hash height block write dir at =
    Outcome-ConfirmedAt h b (confirm-Outcome hash height block write dir) at
