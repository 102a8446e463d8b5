-- ===== src/PrivateState/Graph/Walk.antt =====
-- midnight-private-state/src/fs.rs: the breadth-first walk over a journal, and its fuel.
use midnight_rs.Base.{
  ℕ, zero, suc, ◌+◌, ◌<◌, ◌≤◌, ◌≡◌, ◌≢◌, not, length-retain, Bool-cases, inl, inr, refl, sym, ◌∙◌,
  ap, subst, Bool, true, false, ◌||◌, Option, none, some, List, [], ◌∷◌, ◌++◌, arith, ◌==◌, retain,
  length, length-append, append-nil, append_assoc,
}
use midnight_rs.PrivateState.Types.{Snapshot, contains, eq_option, insert_sorted, sort}
use midnight_rs.PrivateState.Graph.{hashes, children, walk, walk_children}
use midnight_rs.PrivateState.Graph.Shuffle.{
  Shuffles, retain-Shuffles, length-Shuffles, Shuffles-nil, Shuffles-single,
}
use midnight_rs.PrivateState.Graph.Chain.{
  IsChain, Distinct, first, has, has-append, dependents-chain, ==-symm,
}

-- One element and none have one order.
pub Shuffles-first :
    {A : Type 0} (xs : List A) {ys : List A} → length ys ≤ 1 → Shuffles xs ys → xs ≡ ys
Shuffles-first xs {ys = []} h s = Shuffles-nil s refl
Shuffles-first xs {ys = y ∷ []} h s = Shuffles-single y s refl
Shuffles-first xs {ys = y ∷ z ∷ ys} h s = absurd (omega arith)

pub length-first : (c : List Snapshot) → length (first c) ≤ 1
length-first [] = omega arith
length-first (s ∷ c) = omega arith

sort-first : (c : List Snapshot) → sort (hashes (first c)) ≡ hashes (first c)
sort-first [] = refl
sort-first (s ∷ c) = refl

-- The children of a snapshot, in a directory that lists the chain in some order.
children-chain :
    (dir before : List Snapshot) (s : Snapshot) (after : List Snapshot)
    → Shuffles dir (before ++ s ∷ after)
    → IsChain (before ++ s ∷ after)
    → children dir s.extrinsic_hash ≡ hashes (first after)
unfolding children
children-chain dir before s after shuffled c =
    let next = dependents-chain before s after c in
    let kept = retain-Shuffles (λ t. eq_option t.depends_on (some s.extrinsic_hash)) shuffled in
    ap (λ l. sort (hashes l)) (Shuffles-first _ (length-first after) (subst (Shuffles _) next kept))
    ∙ sort-first after

pub hashes-append : (c d : List Snapshot) → hashes (c ++ d) ≡ hashes c ++ hashes d
hashes-append [] d = refl
hashes-append (s ∷ c) d = rw (hashes-append c d)

pub contains-hashes : (c : List Snapshot) (h : ℕ) → contains (hashes c) h ≡ has c h
contains-hashes [] h = refl
contains-hashes (s ∷ c) h = rw (contains-hashes c h)

-- A snapshot's hash is not that of one before it.
pub fresh_in_chain :
    (before : List Snapshot) (s : Snapshot) (after : List Snapshot)
    → Distinct (before ++ s ∷ after)
    → has before s.extrinsic_hash ≡ false
fresh_in_chain [] s after d = refl
fresh_in_chain (t ∷ before) s after d = ground (
  arith,
  has-append before (s ∷ after) t.extrinsic_hash,
  ==-symm s.extrinsic_hash t.extrinsic_hash,
  fresh_in_chain before s after d.1,
)

module _ (dir full : List Snapshot) (shuffled : Shuffles dir full) (c : IsChain full) where
  -- The walk that has listed `listed` and has the next snapshot in its queue.
  walk_rest :
      (before listed rest : List Snapshot) (fuel : ℕ)
      → full ≡ before ++ (listed ++ rest)
      → length rest < fuel
      → walk (children dir) fuel (hashes listed) (hashes (first rest))
        ≡ some (hashes (listed ++ rest))
  unfolding walk
  walk_rest before listed rest zero e h = absurd (omega arith)
  walk_rest before listed [] (suc fuel) e h = rw (append-nil listed)
  walk_rest before listed (s ∷ rest) (suc fuel) e h =
      let e' : full ≡ (before ++ listed) ++ s ∷ rest =
        e ∙ sym (append_assoc before listed (s ∷ rest)) in
      let fresh = fresh_in_chain (before ++ listed) s rest (rw e' at c.distinct) in
      let fresh_listed : contains (hashes listed) s.extrinsic_hash ≡ false =
        contains-hashes listed s.extrinsic_hash
        ∙ second (has before s.extrinsic_hash) _ (rw has-append at fresh) in
      let next = children-chain dir (before ++ listed) s rest (rw e' at shuffled) (rw e' at c) in
      let more : full ≡ before ++ ((listed ++ (s ∷ [])) ++ rest) =
        e ∙ ap (λ l. before ++ l) (sym (append_assoc listed (s ∷ []) rest)) in
      rw (fresh_listed, next)
        ((rw hashes-append at (walk_rest before (listed ++ (s ∷ [])) rest fuel more (omega arith)))
          ∙ ap some (ap hashes (append_assoc listed (s ∷ []) rest)))
    where
      second : (a b : Bool) → (a || b) ≡ false → b ≡ false
      second a b h = ground arith

  -- From a snapshot of the chain the walk reaches it and all that follow, in causal order; from no
  -- snapshot, nothing.
  pub walk_children-chain :
      (before rest : List Snapshot)
      → full ≡ before ++ rest
      → walk_children dir (hashes (first rest)) ≡ some (hashes rest)
  unfolding walk_children
  walk_children-chain before rest e =
      walk_rest before [] rest (suc (length (hashes (first rest)) + length dir)) e (
        omega (
          arith,
          length-Shuffles shuffled,
          ap length e,
          length-append {0} before rest,
          length-append {0} before [],
        ))

-- The snapshots that the walk has still to take up: those whose parent is not listed.
abbrev awaits : List ℕ → Option ℕ → Bool
awaits order none = false
awaits order (some parent) = not (contains order parent)

abbrev waits : List ℕ → Snapshot → Bool
waits order s = awaits order s.depends_on

length-insert_sorted : (n : ℕ) (ns : List ℕ) → length (insert_sorted n ns) ≡ suc (length ns)
length-insert_sorted n [] = refl
length-insert_sorted n (m ∷ ns) = ground (arith, length-insert_sorted n ns)

length-sort : (ns : List ℕ) → length (sort ns) ≡ length ns
length-sort [] = refl
length-sort (n ∷ ns) = length-insert_sorted n (sort ns) ∙ ap suc (length-sort ns)

contains-append :
    (order : List ℕ) (h n : ℕ) → contains (order ++ h ∷ []) n ≡ (contains order n || (h == n))
contains-append [] h n = ground arith
contains-append (m ∷ order) h n = ground (arith, contains-append order h n)

eq_of_== : (a b : ℕ) → (a == b) ≡ true → a ≡ b
eq_of_== a b e = ground arith

abbrev bit : Bool → ℕ
bit true = 1
bit false = 0

length-retain_cons :
    {A : Type 0} (p : A → Bool) (x : A) (xs : List A)
    → length (retain p (x ∷ xs)) ≡ bit (p x) + length (retain p xs)
length-retain_cons p x xs = ground arith

awaits-list :
    (order : List ℕ) (h : ℕ) (parent : Option ℕ)
    → contains order h ≡ false
    → bit (awaits (order ++ h ∷ []) parent) + bit (eq_option parent (some h))
      ≡ bit (awaits order parent)
awaits-list order h none fresh = refl
awaits-list order h (some parent) fresh = rw (contains-append order h parent) (
    step (contains order parent)
      (λ e. subst (λ n. contains order n ≡ false) (eq_of_== h parent e) fresh))
  where
    step :
        (b : Bool)
        → ((h == parent) ≡ true → b ≡ false)
        → bit (not (b || (h == parent))) + bit (parent == h) ≡ bit (not b)
    step b e = ground arith

pub length-hashes : (c : List Snapshot) → length (hashes c) ≡ length c
length-hashes [] = refl
length-hashes (s ∷ c) = ap suc (length-hashes c)

-- Listing a hash takes its children off those that wait.
waits-list :
    (order : List ℕ) (h : ℕ) (snapshots : List Snapshot)
    → contains order h ≡ false
    → length (retain (waits (order ++ h ∷ [])) snapshots)
        + length (retain (λ s. eq_option s.depends_on (some h)) snapshots)
      ≡ length (retain (waits order) snapshots)
waits-list order h [] fresh = refl
waits-list order h (s ∷ snapshots) fresh = omega (
  arith,
  length-retain_cons (waits (order ++ h ∷ [])) s snapshots,
  length-retain_cons (λ t. eq_option t.depends_on (some h)) s snapshots,
  length-retain_cons (waits order) s snapshots,
  awaits-list order h s.depends_on fresh,
  waits-list order h snapshots fresh,
)

walk-total :
    (snapshots : List Snapshot) (fuel : ℕ) (order queue : List ℕ)
    → length queue + length (retain (waits order) snapshots) < fuel
    → walk (children snapshots) fuel order queue ≢ none
unfolding walk children
walk-total snapshots zero order queue h = absurd (omega arith)
walk-total snapshots (suc fuel) order [] h = λ e. cc
walk-total snapshots (suc fuel) order (n ∷ queue) h = elim (Bool-cases (contains order n)) [
  | inl old ↦ rw old (walk-total snapshots fuel order queue (omega arith))
  | inr new ↦ rw new (
      walk-total snapshots fuel (order ++ n ∷ []) (queue ++ children snapshots n) (
        omega (
          arith,
          length-append {0} queue (children snapshots n),
          length-sort (hashes (retain (λ s. eq_option s.depends_on (some n)) snapshots)),
          length-hashes (retain (λ s. eq_option s.depends_on (some n)) snapshots),
          waits-list order n snapshots new,
        )))
]

-- On any journal, well formed or not, the walk ends with the fuel that it is given.
pub walk_children-total :
    (snapshots : List Snapshot) (starts : List ℕ) → walk_children snapshots starts ≢ none
unfolding walk_children
walk_children-total snapshots starts =
    walk-total snapshots (suc (length starts + length snapshots)) [] starts
      (omega (arith, length-retain (waits []) snapshots))
