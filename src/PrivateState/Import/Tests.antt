-- ===== src/PrivateState/Import/Tests.antt =====
-- Imports into a store of two addresses, and the theorems there.
use midnight_rs.Base.{
  ℕ, zero, suc, ◌≡◌, refl, true, false, Option, none, some, List, [], ◌∷◌, map, ok, err, ◌==◌,
  if◌then◌else◌, length, ◌⊎◌,
}
use midnight_rs.PrivateState.Types.{SnapshotStatus, Snapshot, PrivateStateError}
use midnight_rs.PrivateState.Graph.{find_leaf}
use midnight_rs.PrivateState.Store.{Write, pending_snapshot}
use midnight_rs.PrivateState.Import.{
  ConflictStrategy, RawEntry, ImportResult, ImportError, Journals, Staged, no_counts, to_entry,
  apply_import_entries, plan, validate, reject_duplicates, stage, stage_entry, check_journals,
  commit, commit_entry,
}
use midnight_rs.PrivateState.Import.Counts.{total, Fits, tally, apply_import_entries-counts}
use midnight_rs.PrivateState.Import.Untouched.{names, FromStorage, apply_import_entries-untouched}
use midnight_rs.PrivateState.Import.Files.{has_confirmed}
use midnight_rs.PrivateState.Import.Status.{apply_import_entries-confirmed}

-- Sixty-three zeros and a digit.
abbrev zeros : ℕ → List ℕ → List ℕ
zeros zero s = s
zeros (suc n) s = b'0' ∷ zeros n s

abbrev text : ℕ → List ℕ
text digit = zeros 63 (digit ∷ [])

abbrev raw : ℕ → ℕ → Option (List ℕ) → RawEntry
raw address digit depends_on = record {
  address = address;
  status = SnapshotStatus.pending;
  extrinsic_hash = text digit;
  block_hash = none;
  block_height = none;
  depends_on = depends_on;
  contents = 7 ∷ [];
}

abbrev deployed : Snapshot
deployed = record (pending_snapshot 5 none (1 ∷ [])) {
  status = SnapshotStatus.confirmed;
  block_hash = some 77;
}

-- Address 1 has a confirmed deploy, address 2 a directory that another address marks.
abbrev journals : Journals
journals a =
    if a == 1
    then record { marker = some 1; files = deployed ∷ [] }
    else if a == 2
    then record { marker = some 9; files = [] }
    else record { marker = none; files = [] }

abbrev all_written : ℕ → Write × ℕ
all_written n = (Write.written, 0)

-- A call on top of the deploy at address 1, which is imported again, and a deploy at address 3.
abbrev payload : List RawEntry
payload = raw 1 b'5' none ∷ raw 1 b'a' (some (text b'5')) ∷ raw 3 b'1' none ∷ []

imported :
    (apply_import_entries payload ConflictStrategy.skip all_written journals).1
    ≡ ok (record { imported = 2; skipped = 1; overwritten = 0 })
unfolding apply_import_entries plan validate reject_duplicates stage stage_entry check_journals
    commit commit_entry find_leaf
imported = refl

imported_files :
    ((apply_import_entries payload ConflictStrategy.skip all_written journals).0 1).files
    ≡ pending_snapshot 10 (some 5) (7 ∷ []) ∷ deployed ∷ []
unfolding apply_import_entries plan validate reject_duplicates stage stage_entry check_journals
    commit commit_entry find_leaf
imported_files = refl

-- The confirmed deploy is not replaced by a pending one.
refused_downgrade :
    (apply_import_entries payload ConflictStrategy.overwrite all_written journals).1
    ≡ err ImportError.downgrade
unfolding apply_import_entries plan validate reject_duplicates stage stage_entry check_journals
    commit commit_entry find_leaf
refused_downgrade = refl

-- A marker of another address is found after the first address has been written.
foreign_marker :
    let (after, answer) =
      apply_import_entries
        (raw 3 b'1' none ∷ raw 2 b'1' none ∷ [])
        ConflictStrategy.error
        all_written
        journals in
    (answer ≡ err (ImportError.storage PrivateStateError.wrong_marker))
    × ((after 3).files ≡ pending_snapshot 1 none (7 ∷ []) ∷ [])
unfolding apply_import_entries plan validate reject_duplicates stage stage_entry check_journals
    commit commit_entry find_leaf
foreign_marker = (refl, refl)

apply_import_entries-counts_example :
    let r : ImportResult = record { imported = 2; skipped = 1; overwritten = 0 } in
    (total r ≡ length payload)
    × Fits ConflictStrategy.skip r
    × ((staged : Staged) × (plan payload ConflictStrategy.skip journals ≡ ok (staged, r))
        × (r ≡ tally staged no_counts))
unfolding apply_import_entries plan validate reject_duplicates stage stage_entry check_journals
    commit commit_entry find_leaf
apply_import_entries-counts_example =
    apply_import_entries-counts payload ConflictStrategy.skip all_written journals
      (record { imported = 2; skipped = 1; overwritten = 0 }) refl

apply_import_entries-untouched_example :
    let (after, answer) =
      apply_import_entries payload ConflictStrategy.overwrite all_written journals in
    ((x : ImportError) → answer ≡ err x → (after ≡ journals) ⊎ FromStorage x)
    × ((a : ℕ) → names a (map to_entry payload) ≡ false → after a ≡ journals a)
apply_import_entries-untouched_example =
    apply_import_entries-untouched payload ConflictStrategy.overwrite all_written journals

apply_import_entries-confirmed_example :
    has_confirmed 5
      ((apply_import_entries payload ConflictStrategy.skip all_written journals).0 1).files
    ≡ true
apply_import_entries-confirmed_example =
    apply_import_entries-confirmed payload ConflictStrategy.skip all_written journals 1 5 refl
