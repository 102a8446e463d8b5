-- ===== src/PrivateState/Types.antt =====
-- midnight-private-state/src/lib.rs: snapshots and errors. A 32-byte hash is the number that its
-- lowercase hex spells, so texts of hashes compare as these numbers do.
use midnight_rs.Base.{
  ℕ, Bool, true, false, Option, none, some, List, [], ◌∷◌, ◌==◌, leb, if◌then◌else◌, any,
}

pub data SnapshotStatus : Type 0 where
  pending confirmed : SnapshotStatus

pub record Snapshot : Type 0 where
  pub status : SnapshotStatus
  pub extrinsic_hash : ℕ
  pub block_hash : Option ℕ
  pub block_height : Option ℕ
  pub depends_on : Option ℕ
  pub contents : List ℕ

-- Why a journal is malformed.
pub data Malformed : Type 0 where
  no_leaf branching cycle orphan_chain : Malformed

pub data PrivateStateError : Type 0 where
  io : PrivateStateError
  malformed : Malformed → PrivateStateError
  confirmed_elsewhere : PrivateStateError
  wrong_marker : PrivateStateError
  snapshot_already_exists : ℕ → PrivateStateError
  snapshot_not_found : ℕ → PrivateStateError
  journal_conflict : Option ℕ → Option ℕ → PrivateStateError

-- `HashSet::contains`
abbrev pub contains : List ℕ → ℕ → Bool
contains ns n = any (λ m. m == n) ns

abbrev pub eq_option : Option ℕ → Option ℕ → Bool
eq_option none none = true
eq_option (some a) (some b) = a == b
eq_option _ _ = false

-- `sort` on hashes
abbrev pub insert_sorted : ℕ → List ℕ → List ℕ
insert_sorted n [] = n ∷ []
insert_sorted n (m ∷ ms) = if leb n m then n ∷ m ∷ ms else m ∷ insert_sorted n ms

abbrev pub sort : List ℕ → List ℕ
sort [] = []
sort (n ∷ ns) = insert_sorted n (sort ns)

-- The members of a `HashSet` that is collected from a list.
abbrev pub set_of : List ℕ → List ℕ
set_of [] = []
set_of (n ∷ ns) = let rest = set_of ns in if contains rest n then rest else n ∷ rest
