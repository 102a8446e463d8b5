-- ===== src/PrivateState/Store/Append.antt =====
-- midnight-private-state/src/fs.rs: `append_pending` on a journal that lists a chain.
use midnight_rs.Base.{
  ℕ, ◌≡◌, ◌≢◌, refl, sym, ◌∙◌, ap, true, false, Option, none, some, List, [], ◌∷◌, ◌++◌, arith,
  ◌==◌, ok, err, inl, inr, Bool-cases,
}
use midnight_rs.PrivateState.Types.{Snapshot, PrivateStateError, eq_option}
use midnight_rs.PrivateState.Graph.Shuffle.{
  Shuffles, any-Shuffles, insert_at, insert_at-Shuffles, append-Shuffles,
}
use midnight_rs.PrivateState.Graph.Chain.{IsChain, Linked, Distinct, has, has-append, ==-symm}
use midnight_rs.PrivateState.Graph.Leaf.{leaf_of, find_leaf-chain}
use midnight_rs.PrivateState.Store.{
  Directory, Write, is_listed, hash_of, marks, pending_snapshot, put, append_pending,
  head_with_extrinsic, head_parts,
}

-- The hash that the next snapshot of a chain depends on.
abbrev head_hash : Option ℕ → List Snapshot → Option ℕ
head_hash prev [] = prev
head_hash prev (s ∷ c) = head_hash (some s.extrinsic_hash) c

head_hash-leaf_of :
    (s : Snapshot) (c : List Snapshot)
    → head_hash (some s.extrinsic_hash) c ≡ hash_of (leaf_of (s ∷ c))
head_hash-leaf_of s [] = refl
head_hash-leaf_of s (t ∷ c) = head_hash-leaf_of t c

head_hash-none : (c : List Snapshot) → head_hash none c ≡ hash_of (leaf_of c)
head_hash-none [] = refl
head_hash-none (s ∷ c) = head_hash-leaf_of s c

Linked-end :
    (prev : Option ℕ) (c : List Snapshot) (s : Snapshot)
    → Linked prev c
    → s.depends_on ≡ head_hash prev c
    → Linked prev (c ++ s ∷ [])
Linked-end prev [] s l e = (e, tt)
Linked-end prev (t ∷ c) s l e = (l.0, Linked-end (some t.extrinsic_hash) c s l.1 e)

Distinct-end :
    (c : List Snapshot) (s : Snapshot)
    → Distinct c
    → has c s.extrinsic_hash ≡ false
    → Distinct (c ++ s ∷ [])
Distinct-end [] s d e = (refl, tt)
Distinct-end (t ∷ c) s d e = (
  has-append c (s ∷ []) t.extrinsic_hash
      ∙ ground (arith, ==-symm s.extrinsic_hash t.extrinsic_hash),
  Distinct-end c s d.1 (ground arith),
)

-- A chain is extended by a new snapshot that depends on its last one.
pub IsChain-end :
    (c : List Snapshot) (s : Snapshot)
    → IsChain c
    → has c s.extrinsic_hash ≡ false
    → s.depends_on ≡ hash_of (leaf_of c)
    → IsChain (c ++ s ∷ [])
IsChain-end c s h fresh depends = record {
  linked = Linked-end none c s h.linked (depends ∙ sym (head_hash-none c));
  distinct = Distinct-end c s h.distinct fresh;
}

leaf_of-end : (c : List Snapshot) (s : Snapshot) → leaf_of (c ++ s ∷ []) ≡ some s
leaf_of-end [] s = refl
leaf_of-end (t ∷ []) s = refl
leaf_of-end (t ∷ u ∷ c) s = leaf_of-end (u ∷ c) s

pub eq_option-eq : (a b : Option ℕ) → eq_option a b ≡ true → a ≡ b
eq_option-eq none none e = refl
eq_option-eq none (some b) e = absurd (cc)
eq_option-eq (some a) none e = absurd (cc)
eq_option-eq (some a) (some b) e = ap some (ground arith)

pub eq_option_refl : (a : Option ℕ) → eq_option a a ≡ true
eq_option_refl none = refl
eq_option_refl (some a) = ground arith

insert_end :
    (place : ℕ) (s : Snapshot) {files chain : List Snapshot}
    → Shuffles files chain
    → Shuffles (insert_at place s files) (chain ++ s ∷ [])
insert_end place s {files} {chain} shuffled =
    Shuffles.trans (insert_at-Shuffles place s files)
      (Shuffles.trans (Shuffles.keep s shuffled) (append-Shuffles s chain))

-- The files of a directory list a chain, in some order.
pub record IsJournal (files : List Snapshot) : Type 0 where
  pub chain : List Snapshot
  pub listed : Shuffles files chain
  pub ordered : IsChain chain

head_with_extrinsic-chain :
    (dir : Directory) (chain : List Snapshot)
    → Shuffles dir.files chain
    → IsChain chain
    → head_with_extrinsic dir ≡ ok (head_parts (leaf_of chain))
unfolding head_with_extrinsic
head_with_extrinsic-chain dir chain listed ordered =
    rw (find_leaf-chain dir.files chain listed ordered, head_with_extrinsic) refl

-- With the address's marker and a hash that is not in the chain, an append whose write succeeds is
-- accepted if it depends on the chain's last snapshot: the chain then ends in the new snapshot, and
-- the head that is read back is the new state under the new hash.
pub append_pending-head :
    (address hash : ℕ) (depends_on : Option ℕ) (state : List ℕ) (place : ℕ)
    → (dir : Directory) (chain : List Snapshot) → Shuffles dir.files chain
    → IsChain chain
    → marks dir.marker address ≡ true
    → has chain hash ≡ false
    → depends_on ≡ hash_of (leaf_of chain)
    → let (dir', answer) = append_pending address hash depends_on state place Write.written dir in
      let longer = chain ++ pending_snapshot hash depends_on state ∷ [] in
      (answer ≡ ok tt)
      × Shuffles dir'.files longer
      × IsChain longer
      × (head_with_extrinsic dir' ≡ ok (some (state, hash)))
unfolding append_pending
append_pending-head address hash depends_on state place dir chain listed ordered mark fresh
      depends =
    let s = pending_snapshot hash depends_on state in
    let fits : eq_option (hash_of (leaf_of chain)) depends_on ≡ true =
      rw depends (eq_option_refl (hash_of (leaf_of chain))) in
    let longer = IsChain-end chain s ordered fresh depends in
    let listed' = insert_end place s listed in
    rw
      (
        mark,
        any-Shuffles (λ t. t.extrinsic_hash == hash) listed ∙ fresh,
        find_leaf-chain dir.files chain listed ordered,
        fits,
      )
      (
        refl,
        listed',
        longer,
        head_with_extrinsic-chain
              (record { marker = some address; files = insert_at place s dir.files })
              (chain ++ s ∷ []) listed' longer
            ∙ ap (λ l. ok (head_parts l)) (leaf_of-end chain s),
      )

-- With the address's marker and a hash that is not in the chain, an append that depends on anything
-- but the chain's last snapshot is a conflict, which names the hash of that snapshot and leaves the
-- files alone.
pub append_pending-conflict :
    (address hash : ℕ) (depends_on : Option ℕ) (state : List ℕ) (place : ℕ) (write : Write)
    → (dir : Directory) (chain : List Snapshot) → Shuffles dir.files chain
    → IsChain chain
    → marks dir.marker address ≡ true
    → has chain hash ≡ false
    → depends_on ≢ hash_of (leaf_of chain)
    → let (dir', answer) = append_pending address hash depends_on state place write dir in
      (answer ≡ err (PrivateStateError.journal_conflict depends_on (hash_of (leaf_of chain))))
      × (dir'.files ≡ dir.files)
unfolding append_pending
append_pending-conflict address hash depends_on state place write dir chain listed ordered mark
      fresh differs =
    let unfit : eq_option (hash_of (leaf_of chain)) depends_on ≡ false =
      elim (Bool-cases (eq_option (hash_of (leaf_of chain)) depends_on)) [
        | inl same ↦ absurd (differs (sym (eq_option-eq _ _ same)))
        | inr other ↦ other
      ] in
    rw
      (
        mark,
        any-Shuffles (λ t. t.extrinsic_hash == hash) listed ∙ fresh,
        find_leaf-chain dir.files chain listed ordered,
        unfit,
      )
      (refl, refl)

put-IsJournal :
    (write : Write) (place : ℕ) (s : Snapshot) (dir : Directory) (journal : IsJournal dir.files)
    → IsChain (journal.chain ++ s ∷ [])
    → IsJournal (put write place s dir).0.files
put-IsJournal Write.written place s dir journal longer = record {
  chain = _;
  listed = insert_end place s journal.listed;
  ordered = longer;
}
put-IsJournal Write.failed place s dir journal longer = journal
put-IsJournal Write.failed_left place s dir journal longer = record {
  chain = _;
  listed = insert_end place s journal.listed;
  ordered = longer;
}

-- An append keeps a journal a journal, however it answers and however its write ends.
pub append_pending-IsJournal :
    (address hash : ℕ) (depends_on : Option ℕ) (state : List ℕ) (place : ℕ) (write : Write)
    → (dir : Directory) → IsJournal dir.files
    → IsJournal (append_pending address hash depends_on state place write dir).0.files
unfolding append_pending
append_pending-IsJournal address hash depends_on state place write dir journal =
    elim (Bool-cases (marks dir.marker address)) [
      | inr foreign ↦ rw foreign journal
      | inl own ↦ elim (Bool-cases (is_listed dir.files hash)) [
        | inl old ↦ rw (own, old) journal
        | inr new ↦ elim (Bool-cases (eq_option (hash_of (leaf_of journal.chain)) depends_on)) [
          | inr other ↦
              rw
                (
                  own,
                  new,
                  find_leaf-chain dir.files journal.chain journal.listed journal.ordered,
                  other,
                )
                journal
          | inl same ↦
              rw
                (
                  own,
                  new,
                  find_leaf-chain dir.files journal.chain journal.listed journal.ordered,
                  same,
                )
                (put-IsJournal write place _ _ journal (
                  IsChain-end journal.chain (pending_snapshot hash depends_on state) journal.ordered
                    (sym (any-Shuffles (λ t. t.extrinsic_hash == hash) journal.listed) ∙ new)
                    (sym (eq_option-eq _ _ same))))
        ]
      ]
    ]
