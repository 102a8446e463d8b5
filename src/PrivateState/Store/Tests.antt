-- ===== src/PrivateState/Store/Tests.antt =====
-- A journal of two snapshots, listed newest first, and the journal operations run on it.
use midnight_rs.Base.{◌≡◌, ◌≢◌, refl, true, false, none, some, List, [], ◌∷◌, ok, err, ◌==◌}
use midnight_rs.PrivateState.Types.{SnapshotStatus, Snapshot, Malformed, PrivateStateError}
use midnight_rs.PrivateState.Graph.{find_leaf, walk_children}
use midnight_rs.PrivateState.Graph.Shuffle.{Shuffles}
use midnight_rs.PrivateState.Graph.Chain.{IsChain}
use midnight_rs.PrivateState.Graph.Walk.{walk_children-total}
use midnight_rs.PrivateState.Graph.Leaf.{leaf_of, find_leaf-chain}
use midnight_rs.PrivateState.Store.{
  Directory, Write, Clear, append_pending, confirm, rollback_from, forget, head_with_extrinsic,
  hash_of, pending_snapshot, snapshots,
}
use midnight_rs.PrivateState.Store.Delete.{Cut, is_done, rollback_from-cuts, rollback_from-removes}
use midnight_rs.PrivateState.Store.Append.{IsJournal, append_pending-head}
use midnight_rs.PrivateState.Store.Confirm.{ConfirmedAt, confirm-ok, confirm-ConfirmedAt}
use midnight_rs.PrivateState.Store.Invariant.{Call, after, new_directory, after-reads}

abbrev deploy : Snapshot
deploy = record {
  status = SnapshotStatus.confirmed;
  extrinsic_hash = 5;
  block_hash = some 77;
  block_height = none;
  depends_on = none;
  contents = 1 ∷ [];
}

abbrev call : Snapshot
call = pending_snapshot 3 (some 5) (1 ∷ 2 ∷ [])

abbrev journal : Directory
journal = record { marker = some 9; files = call ∷ deploy ∷ [] }

journal-listed : Shuffles (call ∷ deploy ∷ []) (deploy ∷ call ∷ [])
journal-listed = Shuffles.swap call deploy []

journal-IsChain : IsChain (deploy ∷ call ∷ [])
journal-IsChain = record { linked = (refl, (refl, tt)); distinct = (refl, (refl, tt)) }

find_leaf-chain_example : find_leaf (call ∷ deploy ∷ []) ≡ ok (some call)
find_leaf-chain_example =
    find_leaf-chain (call ∷ deploy ∷ []) (deploy ∷ call ∷ []) journal-listed journal-IsChain

-- Two snapshots that depend on each other.
abbrev tangled : List Snapshot
tangled = pending_snapshot 1 (some 2) [] ∷ pending_snapshot 2 (some 1) [] ∷ []

walk_children-total_example : walk_children tangled (1 ∷ []) ≢ none
walk_children-total_example = walk_children-total tangled (1 ∷ [])

rollback_from-cuts_example :
    let (dir', answer) = rollback_from 5 (some 1) true journal in
    (cut : Cut [] (deploy ∷ call ∷ []) dir'.files (is_done answer)) × IsChain cut.kept
rollback_from-cuts_example =
    rollback_from-cuts (some 1) true journal [] deploy (call ∷ []) journal-listed journal-IsChain

rollback_from-removes_example :
    let (dir', answer) = rollback_from 3 none true journal in
    (answer ≡ ok tt) × Shuffles dir'.files (deploy ∷ [])
rollback_from-removes_example =
    rollback_from-removes journal (deploy ∷ []) call [] journal-listed journal-IsChain

append_pending-head_example :
    let (dir', answer) = append_pending 9 4 (some 3) (7 ∷ []) 1 Write.written journal in
    let longer = deploy ∷ call ∷ pending_snapshot 4 (some 3) (7 ∷ []) ∷ [] in
    (answer ≡ ok tt)
    × Shuffles dir'.files longer
    × IsChain longer
    × (head_with_extrinsic dir' ≡ ok (some (7 ∷ [], 4)))
append_pending-head_example =
    append_pending-head 9 4 (some 3) (7 ∷ []) 1 journal (deploy ∷ call ∷ []) journal-listed
      journal-IsChain refl refl refl

deploy-ConfirmedAt : ConfirmedAt 5 77 (call ∷ deploy ∷ [])
deploy-ConfirmedAt = record { snapshot = deploy; found = refl; is_done = refl; at_block = refl }

confirm-ok_example : ConfirmedAt 3 78 (confirm 3 (some 12) 78 Write.written journal).0.files
unfolding confirm
confirm-ok_example = confirm-ok 3 (some 12) 78 Write.written journal refl

confirm-ConfirmedAt_example :
    ConfirmedAt 5 77 (confirm 5 (some 12) 78 Write.written journal).0.files
confirm-ConfirmedAt_example =
    confirm-ConfirmedAt 5 77 5 (some 12) 78 Write.written journal deploy-ConfirmedAt

abbrev calls : List Call
calls =
    Call.append 5 none (1 ∷ []) 0 Write.written
    ∷ Call.append 3 (some 5) (2 ∷ []) 0 Write.failed_left
    ∷ Call.confirmed 5 none 77 Write.written
    ∷ Call.failed 5 (some 1) true
    ∷ []

-- A forget that stops part-way, then one that ends, then the calls.
abbrev recovery : List Call
recovery =
    Call.append 8 none [] 0 Write.written
    ∷ Call.forgotten (Clear.stopped false (λ s. true))
    ∷ Call.forgotten Clear.cleared
    ∷ calls

after-reads_example :
    let files = (after 9 recovery new_directory).files in
    (j : IsJournal files) × (find_leaf files ≡ ok (leaf_of j.chain))
after-reads_example = after-reads 9 recovery refl

-- A forget that stopped after the first snapshot's file: what is left has no root, and is refused.
after-stopped :
    find_leaf (forget (Clear.stopped true (λ s. s.extrinsic_hash == 3)) journal).0.files
    ≡ err (PrivateStateError.malformed Malformed.orphan_chain)
unfolding forget find_leaf
after-stopped = refl

-- The failed cascade left the deploy, which is confirmed.
after-calls :
    (after 9 calls new_directory).files
    ≡ record (pending_snapshot 5 none (1 ∷ [])) {
      status = SnapshotStatus.confirmed;
      block_hash = some 77;
    }
      ∷ []
unfolding append_pending confirm rollback_from find_leaf midnight_rs.PrivateState.Store.remove_files
after-calls = refl
