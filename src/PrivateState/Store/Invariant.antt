-- ===== src/PrivateState/Store/Invariant.antt =====
-- Sequences of the journal operations of midnight-private-state/src/fs.rs on one address, each of which
-- the file system may fail, and the journal that they leave.
use midnight_rs.Base.{
  ℕ, ◌≡◌, refl, sym, ◌∙◌, ap, subst, Bool, true, false, Option, none, List, [], ◌∷◌, ◌++◌, arith,
  ◌==◌, ok, inl, inr, Bool-cases,
}
use midnight_rs.PrivateState.Types.{Snapshot}
use midnight_rs.PrivateState.Graph.{find_leaf}
use midnight_rs.PrivateState.Graph.Shuffle.{Shuffles, any-Shuffles}
use midnight_rs.PrivateState.Graph.Chain.{IsChain, has}
use midnight_rs.PrivateState.Graph.Leaf.{leaf_of, find_leaf-chain}
use midnight_rs.PrivateState.Store.{
  Directory, Write, Clear, is_listed, append_pending, confirm, rollback_from, mark_failed, forget,
}
use midnight_rs.PrivateState.Store.Delete.{rollback_from-cuts}
use midnight_rs.PrivateState.Store.Append.{IsJournal, append_pending-IsJournal}
use midnight_rs.PrivateState.Store.Confirm.{confirm-IsJournal}

-- A call, with what the file system makes of it.
pub data Call : Type 0 where
  append : (hash : ℕ) (depends_on : Option ℕ) (state : List ℕ) (place : ℕ) (write : Write) → Call
  confirmed : (hash : ℕ) (height : Option ℕ) (block : ℕ) (write : Write) → Call
  failed : (hash : ℕ) (failing : Option ℕ) (synced : Bool) → Call
  rollback : (hash : ℕ) (failing : Option ℕ) (synced : Bool) → Call
  forgotten : Clear → Call

-- The directory after a call.
abbrev pub step : ℕ → Call → Directory → Directory
step address (Call.append hash depends_on state place write) dir =
    (append_pending address hash depends_on state place write dir).0
step address (Call.confirmed hash height block write) dir = (confirm hash height block write dir).0
step address (Call.failed hash failing synced) dir = (mark_failed hash failing synced dir).0
step address (Call.rollback hash failing synced) dir = (rollback_from hash failing synced dir).0
step address (Call.forgotten clear) dir = (forget clear dir).0

abbrev pub after : ℕ → List Call → Directory → Directory
after address [] dir = dir
after address (call ∷ calls) dir = after address calls (step address call dir)

-- Whether no forget has stopped part-way since the last one that ended, or since the start.
abbrev whole_after : Call → Bool → Bool
whole_after (Call.append hash depends_on state place write) whole = whole
whole_after (Call.confirmed hash height block write) whole = whole
whole_after (Call.failed hash failing synced) whole = whole
whole_after (Call.rollback hash failing synced) whole = whole
whole_after (Call.forgotten Clear.cleared) whole = true
whole_after (Call.forgotten (Clear.stopped keeps_marker keeps)) whole = false

abbrev pub is_whole : Bool → List Call → Bool
is_whole whole [] = whole
is_whole whole (call ∷ calls) = is_whole (whole_after call whole) calls

abbrev pub new_directory : Directory
new_directory = record { marker = none; files = [] }

-- Where a hash of a chain stands.
record Split (chain : List Snapshot) (hash : ℕ) : Type 0 where
  before : List Snapshot
  s : Snapshot
  rest : List Snapshot
  parts : chain ≡ before ++ s ∷ rest
  here : s.extrinsic_hash ≡ hash

split : (chain : List Snapshot) (hash : ℕ) → has chain hash ≡ true → Split chain hash
split [] hash e = absurd (cc)
split (s ∷ chain) hash e = elim (Bool-cases (s.extrinsic_hash == hash)) [
  | inl hit ↦ record { before = []; s = s; rest = chain; parts = refl; here = ground arith }
  | inr miss ↦
      let later = split chain hash (ground arith) in
      record {
        before = s ∷ later.before;
        s = later.s;
        rest = later.rest;
        parts = ap (λ l. s ∷ l) later.parts;
        here = later.here;
      }
]

rollback_from-IsJournal :
    (hash : ℕ) (failing : Option ℕ) (synced : Bool) (dir : Directory)
    → IsJournal dir.files
    → IsJournal (rollback_from hash failing synced dir).0.files
unfolding rollback_from
rollback_from-IsJournal hash failing synced dir journal =
    elim (Bool-cases (is_listed dir.files hash)) [
      | inr missing ↦ rw missing journal
      | inl listed ↦
          let at =
            split journal.chain hash
              (sym (any-Shuffles (λ t. t.extrinsic_hash == hash) journal.listed) ∙ listed) in
          let cut =
            rollback_from-cuts failing synced dir at.before at.s at.rest
              (subst (Shuffles dir.files) at.parts journal.listed)
              (subst IsChain at.parts journal.ordered) in
          subst (λ h. IsJournal (rollback_from h failing synced dir).0.files) at.here
            (record { chain = at.before ++ cut.0.kept; listed = cut.0.listed; ordered = cut.1 })
    ]

empty-IsJournal : IsJournal []
empty-IsJournal = record {
  chain = [];
  listed = Shuffles.nil;
  ordered = record { linked = tt; distinct = tt };
}

step-IsJournal :
    (address : ℕ) (call : Call) (whole : Bool) (dir : Directory)
    → (whole ≡ true → IsJournal dir.files)
    → whole_after call whole ≡ true
    → IsJournal (step address call dir).files
unfolding forget
step-IsJournal address (Call.append hash depends_on state place write) whole dir journal e =
    append_pending-IsJournal address hash depends_on state place write dir (journal e)
step-IsJournal address (Call.confirmed hash height block write) whole dir journal e =
    confirm-IsJournal hash height block write dir (journal e)
step-IsJournal address (Call.failed hash failing synced) whole dir journal e =
    rollback_from-IsJournal hash failing synced dir (journal e)
step-IsJournal address (Call.rollback hash failing synced) whole dir journal e =
    rollback_from-IsJournal hash failing synced dir (journal e)
step-IsJournal address (Call.forgotten Clear.cleared) whole dir journal e = empty-IsJournal
step-IsJournal address (Call.forgotten (Clear.stopped keeps_marker keeps)) whole dir journal e =
    absurd (cc)

after-IsJournal :
    (address : ℕ) (calls : List Call) (whole : Bool) (dir : Directory)
    → (whole ≡ true → IsJournal dir.files)
    → is_whole whole calls ≡ true
    → IsJournal (after address calls dir).files
after-IsJournal address [] whole dir journal e = journal e
after-IsJournal address (call ∷ calls) whole dir journal e =
    after-IsJournal address calls (whole_after call whole) (step address call dir)
      (step-IsJournal address call whole dir journal) e

-- After any sequence of appends, confirmations, failures, rollbacks and forgets on a new directory,
-- whichever of their writes and removals fail and in whatever order the files are listed, if each
-- forget that stopped part-way was followed by one that ended, the files list a chain, and `find_leaf`
-- reads the chain's last snapshot without an error.
pub after-reads :
    (address : ℕ) (calls : List Call)
    → is_whole true calls ≡ true
    → let files = (after address calls new_directory).files in
      (journal : IsJournal files) × (find_leaf files ≡ ok (leaf_of journal.chain))
after-reads address calls whole =
    let journal = after-IsJournal address calls true new_directory (λ e. empty-IsJournal) whole in
    (journal, find_leaf-chain _ journal.chain journal.listed journal.ordered)
