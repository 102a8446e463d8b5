-- ===== src/PrivateState/Graph.antt =====
-- `find_leaf`, `topo_sort` and `walk_children` of midnight-private-state/src/fs.rs: the graph that the
-- `depends_on` fields of a journal's snapshots make.
pub mod Shuffle
pub mod Chain
pub mod Walk
pub mod Leaf
use midnight_rs.Base.{
  ℕ, zero, suc, ◌+◌, Bool, true, false, ◌&&◌, not, Option, none, some, List, [], ◌∷◌, ◌++◌, map,
  Result, ok, err, leb, ◌==◌, if◌then◌else◌, any, all, retain, length, is_empty,
}
use midnight_rs.PrivateState.Types.{
  Snapshot, Malformed, PrivateStateError, contains, eq_option, sort, set_of,
}

abbrev pub hashes : List Snapshot → List ℕ
hashes snapshots = map (λ s. s.extrinsic_hash) snapshots

-- The children of a hash, in hash order.
unfoldable pub children : List Snapshot → ℕ → List ℕ
children snapshots parent =
    sort (hashes (retain (λ s. eq_option s.depends_on (some parent)) snapshots))

-- The loop of `walk_children`: the queue's first hash is dropped if it was visited, and otherwise
-- listed, with its children at the queue's end. What is visited is what is listed. `none` means that
-- the fuel ran out.
unfoldable pub walk : (ℕ → List ℕ) → ℕ → List ℕ → List ℕ → Option (List ℕ)
walk children zero order queue = none
walk children (suc fuel) order [] = some order
walk children (suc fuel) order (hash ∷ queue) =
    let skip = walk children fuel order queue in
    let visit = walk children fuel (order ++ hash ∷ []) (queue ++ children hash) in
    if contains order hash then skip else visit

-- Each snapshot enters the queue at most once, since its parent is listed once.
unfoldable pub walk_children : List Snapshot → List ℕ → Option (List ℕ)
unfolding walk children
walk_children snapshots starts =
    walk (children snapshots) (suc (length starts + length snapshots)) [] starts

abbrev pub or_empty : Option (List ℕ) → List ℕ
or_empty none = []
or_empty (some hs) = hs

-- The snapshot under a hash in a map that is collected from a list: the last one.
abbrev pub by_hash : List Snapshot → ℕ → Option Snapshot
by_hash [] h = none
by_hash (s ∷ snapshots) h = elim (by_hash snapshots h) [
  | some t ↦ some t
  | none ↦ if s.extrinsic_hash == h then some s else none
]

abbrev pub roots : List Snapshot → List Snapshot
roots snapshots = retain (λ s. eq_option s.depends_on none) snapshots

-- Whether another snapshot depends on the hash.
abbrev pub is_referenced : List Snapshot → ℕ → Bool
is_referenced snapshots h = any (λ s. eq_option s.depends_on (some h)) snapshots

-- Whether the parent of the snapshot under a hash is in the journal, if it has one.
abbrev parent_present : List Snapshot → ℕ → Bool
parent_present snapshots h = elim (by_hash snapshots h) [
  | none ↦ true
  | some s ↦ elim s.depends_on [
    | none ↦ true
    | some parent ↦ any (λ t. t.extrinsic_hash == parent) snapshots
  ]
]

-- The leaf of a journal whose one leaf is found: it counts if every snapshot is reached from a root.
unfoldable pub leaf_if_reached :
    List Snapshot → Snapshot → List ℕ → Result PrivateStateError (Option Snapshot)
leaf_if_reached snapshots leaf order =
    let reachable = set_of order in
    let orphans = retain (λ h. not (contains reachable h)) (hashes snapshots) in
    if length reachable == length snapshots
    then ok (some leaf)
    else if all (parent_present snapshots) orphans
    then err (PrivateStateError.malformed Malformed.cycle)
    else err (PrivateStateError.malformed Malformed.orphan_chain)

abbrev pub leaves : List Snapshot → List Snapshot
leaves snapshots = retain (λ s. not (is_referenced snapshots s.extrinsic_hash)) snapshots

-- What the leaves of a journal say of its head.
abbrev pub choose_leaf :
    List Snapshot → List ℕ → List Snapshot → Result PrivateStateError (Option Snapshot)
choose_leaf snapshots order [] = err (PrivateStateError.malformed Malformed.no_leaf)
choose_leaf snapshots order (leaf ∷ []) = leaf_if_reached snapshots leaf order
choose_leaf snapshots order (leaf ∷ _ ∷ _) = err (PrivateStateError.malformed Malformed.branching)

unfoldable pub find_leaf : List Snapshot → Result PrivateStateError (Option Snapshot)
unfolding walk_children leaf_if_reached
find_leaf [] = ok none
find_leaf (s ∷ rest) =
    let snapshots = s ∷ rest in
    choose_leaf snapshots (or_empty (walk_children snapshots (hashes (roots snapshots))))
      (leaves snapshots)

-- `filter_map(|h| by_hash.remove(h))`: the snapshots under the hashes, each removed once.
abbrev pub take_out : List Snapshot → List ℕ → List Snapshot
take_out snapshots [] = []
take_out snapshots (h ∷ hs) = elim (by_hash snapshots h) [
  | none ↦ take_out snapshots hs
  | some s ↦ s ∷ take_out (retain (λ t. not (t.extrinsic_hash == h)) snapshots) hs
]

-- The values of that map.
abbrev pub values : List Snapshot → List Snapshot
values [] = []
values (s ∷ snapshots) =
    if any (λ t. t.extrinsic_hash == s.extrinsic_hash) snapshots
    then values snapshots
    else s ∷ values snapshots

-- `sort_by` on the hash
abbrev insert_by_hash : Snapshot → List Snapshot → List Snapshot
insert_by_hash s [] = s ∷ []
insert_by_hash s (t ∷ ts) =
    if leb s.extrinsic_hash t.extrinsic_hash then s ∷ t ∷ ts else t ∷ insert_by_hash s ts

abbrev pub sort_by_hash : List Snapshot → List Snapshot
sort_by_hash [] = []
sort_by_hash (s ∷ ss) = insert_by_hash s (sort_by_hash ss)

unfoldable pub topo_sort : List Snapshot → List Snapshot
unfolding walk_children
topo_sort snapshots =
    let vs = values snapshots in
    let order = or_empty (walk_children vs (sort (hashes (roots vs)))) in
    take_out vs order ++ sort_by_hash (retain (λ s. not (contains order s.extrinsic_hash)) vs)
