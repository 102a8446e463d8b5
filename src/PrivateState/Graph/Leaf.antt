-- ===== src/PrivateState/Graph/Leaf.antt =====
-- midnight-private-state/src/fs.rs: `find_leaf` on a journal that lists a chain.
use midnight_rs.Base.{
  ◌≤◌, ◌≡◌, refl, sym, ◌∙◌, ap, subst, fun_ext, not, Option, none, some, List, [], ◌∷◌, arith,
  retain, length, ok,
}
use midnight_rs.PrivateState.Types.{Snapshot, eq_option, set_of}
use midnight_rs.PrivateState.Graph.{
  hashes, walk_children, or_empty, roots, leaves, is_referenced, leaf_if_reached, choose_leaf,
  find_leaf,
}
use midnight_rs.PrivateState.Graph.Shuffle.{
  Shuffles, retain-Shuffles, any-Shuffles, length-Shuffles, Shuffles-nil, Shuffles-symm,
}
use midnight_rs.PrivateState.Graph.Chain.{IsChain, Distinct, first, last, roots-chain, leaves-chain}
use midnight_rs.PrivateState.Graph.Walk.{
  Shuffles-first, length-first, length-hashes, contains-hashes, walk_children-chain,
}

-- The last snapshot, if there is one.
abbrev pub leaf_of : List Snapshot → Option Snapshot
leaf_of [] = none
leaf_of (s ∷ []) = some s
leaf_of (s ∷ t ∷ c) = leaf_of (t ∷ c)

set_of-Distinct : (c : List Snapshot) → Distinct c → set_of (hashes c) ≡ hashes c
set_of-Distinct [] d = refl
set_of-Distinct (s ∷ c) d = rw (set_of-Distinct c d.1, contains-hashes c s.extrinsic_hash, d.0)

last-leaf_of :
    (s : Snapshot) (c : List Snapshot)
    → (leaf : Snapshot) × (last (s ∷ c) ≡ leaf ∷ []) × (leaf_of (s ∷ c) ≡ some leaf)
last-leaf_of s [] = (s, refl, refl)
last-leaf_of s (t ∷ c) = last-leaf_of t c

length-last : (c : List Snapshot) → length (last c) ≤ 1
length-last [] = omega arith
length-last (s ∷ []) = omega arith
length-last (s ∷ t ∷ c) = length-last (t ∷ c)

module _ (dir chain : List Snapshot) (shuffled : Shuffles dir chain) (c : IsChain chain) where
  roots-shuffled : roots dir ≡ first chain
  roots-shuffled = Shuffles-first (roots dir) (length-first chain) (
      subst (Shuffles (roots dir)) (roots-chain chain c.linked)
        (retain-Shuffles (λ s. eq_option s.depends_on none) shuffled))

  leaves-shuffled : leaves dir ≡ last chain
  leaves-shuffled = Shuffles-first (leaves dir) (length-last chain) (
      subst (Shuffles (leaves dir))
        (ap (λ p. retain p chain)
            (fun_ext (λ s.
              ap not (any-Shuffles (λ t. eq_option t.depends_on (some s.extrinsic_hash)) shuffled)))
          ∙ leaves-chain chain c)
        (retain-Shuffles (λ s. not (is_referenced dir s.extrinsic_hash)) shuffled))

  reached-shuffled : walk_children dir (hashes (roots dir)) ≡ some (hashes chain)
  reached-shuffled = rw roots-shuffled (walk_children-chain dir chain shuffled c [] chain refl)

  all_reached : (leaf : Snapshot) → leaf_if_reached dir leaf (hashes chain) ≡ ok (some leaf)
  unfolding leaf_if_reached
  all_reached leaf =
      rw (set_of-Distinct chain c.distinct)
        (ground (arith, length-hashes chain, length-Shuffles shuffled))

-- On a directory that lists a chain, in whatever order, `find_leaf` accepts the journal and returns
-- the last snapshot of the chain, or none if the chain is empty.
pub find_leaf-chain :
    (dir chain : List Snapshot)
    → Shuffles dir chain
    → IsChain chain
    → find_leaf dir ≡ ok (leaf_of chain)
unfolding find_leaf
find_leaf-chain [] chain shuffled c = rw (Shuffles-nil (Shuffles-symm shuffled) refl)
find_leaf-chain (s ∷ dir) [] shuffled c = absurd (omega (arith, length-Shuffles shuffled))
find_leaf-chain (s ∷ dir) (t ∷ rest) shuffled c =
    let full = s ∷ dir in
    let (leaf, e, found) = last-leaf_of t rest in
    let order = reached-shuffled full (t ∷ rest) shuffled c in
    let one = leaves-shuffled full (t ∷ rest) shuffled c ∙ e in
    (λ i. choose_leaf full (or_empty (order i)) (one i))
    ∙ all_reached full (t ∷ rest) shuffled c leaf
    ∙ ap ok (sym found)
