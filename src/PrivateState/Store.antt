-- ===== src/PrivateState/Store.antt =====
-- The journal operations of `FsPrivateStateProvider` in midnight-private-state/src/fs.rs, on the
-- directory of one address. Each runs under the address's lock, so they run one after another. The
-- file system chooses where a new file stands in the listing and which writes and removals fail.
pub mod Delete
pub mod Append
pub mod Confirm
pub mod Invariant
mod Tests
use midnight_rs.Base.{
  ℕ, zero, suc, Bool, true, false, ◌&&◌, not, Option, none, some, List, [], ◌∷◌, Result, ok, err,
  ◌==◌, if◌then◌else◌, any, retain, is_some, reverse,
}
use midnight_rs.PrivateState.Types.{SnapshotStatus, Snapshot, PrivateStateError, eq_option}
use midnight_rs.PrivateState.Graph.{find_leaf, walk_children, or_empty, topo_sort}
use midnight_rs.PrivateState.Graph.Shuffle.{insert_at}

-- A per-address directory: the address marker and the snapshot files, as they are listed.
pub record Directory : Type 0 where
  pub marker : Option ℕ
  pub files : List Snapshot

-- How a write of a file ends: it may fail and leave nothing, or fail after the rename and leave the
-- file. A new file is left only if its removal fails too.
pub data Write : Type 0 where
  written failed failed_left : Write

abbrev pub Answer : Type 0 → Type 0
Answer A = Directory × Result PrivateStateError A

-- `find_snapshot_path(..).is_some()`
abbrev pub is_listed : List Snapshot → ℕ → Bool
is_listed files h = any (λ s. s.extrinsic_hash == h) files

-- The first snapshot with the hash.
abbrev pub find_snapshot : List Snapshot → ℕ → Option Snapshot
find_snapshot [] h = none
find_snapshot (s ∷ files) h = if s.extrinsic_hash == h then some s else find_snapshot files h

-- `Option::map` to the hash
abbrev pub hash_of : Option Snapshot → Option ℕ
hash_of none = none
hash_of (some s) = some s.extrinsic_hash

abbrev pub marks : Option ℕ → ℕ → Bool
marks none address = true
marks (some a) address = a == address

abbrev pub pending_snapshot : ℕ → Option ℕ → List ℕ → Snapshot
pending_snapshot hash depends_on state = record {
  status = SnapshotStatus.pending;
  extrinsic_hash = hash;
  block_hash = none;
  block_height = none;
  depends_on = depends_on;
  contents = state;
}

-- The write of the new snapshot.
abbrev pub put : Write → ℕ → Snapshot → Directory → Answer (Unit {0})
put Write.written place s dir = (record dir { files = insert_at place s dir.files }, ok tt)
put Write.failed place s dir = (dir, err PrivateStateError.io)
put Write.failed_left place s dir =
    (record dir { files = insert_at place s dir.files }, err PrivateStateError.io)

unfoldable pub append_pending :
    ℕ → ℕ → Option ℕ → List ℕ → ℕ → Write → Directory → Answer (Unit {0})
append_pending address hash depends_on state place write dir =
    if not (marks dir.marker address)
    then (dir, err PrivateStateError.wrong_marker)
    else let dir' : Directory = record dir { marker = some address } in
      if is_listed dir.files hash
      then (dir', err (PrivateStateError.snapshot_already_exists hash))
      else elim (find_leaf dir.files) [
        | err e ↦ (dir', err e)
        | ok leaf ↦
            if eq_option (hash_of leaf) depends_on
            then put write place (pending_snapshot hash depends_on state) dir'
            else (dir', err (PrivateStateError.journal_conflict depends_on (hash_of leaf)))
      ]

-- The file of the first snapshot with the hash is rewritten.
abbrev pub rewrite_file : ℕ → (Snapshot → Snapshot) → List Snapshot → List Snapshot
rewrite_file h f [] = []
rewrite_file h f (s ∷ files) =
    if s.extrinsic_hash == h then f s ∷ files else s ∷ rewrite_file h f files

abbrev pub is_confirmed : SnapshotStatus → Bool
is_confirmed SnapshotStatus.pending = false
is_confirmed SnapshotStatus.confirmed = true

abbrev pub confirmed_at : ℕ → Option ℕ → Snapshot → Snapshot
confirmed_at block height s = record s {
  status = SnapshotStatus.confirmed;
  block_hash = some block;
  block_height = height;
}

abbrev pub with_height : Option ℕ → Snapshot → Snapshot
with_height height s = record s { block_height = height }

-- A rewrite of a file: it may fail, and it may fail after the rename, which leaves the new file.
abbrev pub rewrite : Write → ℕ → (Snapshot → Snapshot) → Directory → Answer (Unit {0})
rewrite Write.written h f dir = (record dir { files = rewrite_file h f dir.files }, ok tt)
rewrite Write.failed h f dir = (dir, err PrivateStateError.io)
rewrite Write.failed_left h f dir =
    (record dir { files = rewrite_file h f dir.files }, err PrivateStateError.io)

unfoldable pub confirm : ℕ → Option ℕ → ℕ → Write → Directory → Answer (Unit {0})
confirm hash height block write dir = elim (find_snapshot dir.files hash) [
  | none ↦ (dir, err (PrivateStateError.snapshot_not_found hash))
  | some snap ↦
      if is_confirmed snap.status
      then (if not (eq_option snap.block_hash (some block))
          then (dir, err PrivateStateError.confirmed_elsewhere)
          else if not (is_some snap.block_height) && is_some height
          then rewrite write hash (with_height height) dir
          else (dir, ok tt))
      else rewrite write hash (confirmed_at block height) dir
]

-- The file that `path_by_hash` has under a hash is removed: that of the last snapshot with it.
abbrev pub remove_file : ℕ → List Snapshot → List Snapshot
remove_file h [] = []
remove_file h (s ∷ files) =
    if not (is_listed files h) && (s.extrinsic_hash == h) then files else s ∷ remove_file h files

-- The removals of `cascade_drop`, in order; `some n` is a file system that fails at removal n.
unfoldable pub remove_files : List ℕ → Option ℕ → List Snapshot → List Snapshot × Bool
remove_files [] failing files = (files, true)
remove_files (h ∷ hs) none files = remove_files hs none (remove_file h files)
remove_files (h ∷ hs) (some zero) files = (files, false)
remove_files (h ∷ hs) (some (suc n)) files = remove_files hs (some n) (remove_file h files)

-- `cascade_drop`; `synced` tells whether the directory syncs at the end.
unfoldable pub rollback_from : ℕ → Option ℕ → Bool → Directory → Answer (Unit {0})
rollback_from hash failing synced dir =
    if not (is_listed dir.files hash)
    then (dir, err (PrivateStateError.snapshot_not_found hash))
    else let doomed = or_empty (walk_children dir.files (hash ∷ [])) in
      let (files, done) = remove_files (reverse doomed) failing dir.files in
      (record dir { files = files }, if done && synced then ok tt else err PrivateStateError.io)

-- `mark_failed` adds a log line.
abbrev pub mark_failed : ℕ → Option ℕ → Bool → Directory → Answer (Unit {0})
mark_failed = rollback_from

abbrev pub head_parts : Option Snapshot → Option (List ℕ × ℕ)
head_parts none = none
head_parts (some s) = some (s.contents, s.extrinsic_hash)

-- The bytes and the hash of the head.
unfoldable pub head_with_extrinsic : Directory → Result PrivateStateError (Option (List ℕ × ℕ))
head_with_extrinsic dir = elim (find_leaf dir.files) [ err e ↦ err e | ok s ↦ ok (head_parts s) ]

unfoldable pub snapshots : Directory → List Snapshot
snapshots dir = topo_sort dir.files

-- How a removal of the directory ends: nothing is left, or it stops part-way and leaves some files.
pub data Clear : Type 0 where
  cleared : Clear
  stopped : (keeps_marker : Bool) (keeps : Snapshot → Bool) → Clear

unfoldable pub forget : Clear → Directory → Answer (Unit {0})
forget Clear.cleared dir = (record { marker = none; files = [] }, ok tt)
forget (Clear.stopped keeps_marker keeps) dir = (
  record { marker = if keeps_marker then dir.marker else none; files = retain keeps dir.files },
  err PrivateStateError.io,
)
