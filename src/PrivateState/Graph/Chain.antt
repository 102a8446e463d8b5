-- ===== src/PrivateState/Graph/Chain.antt =====
-- A journal in causal order: each snapshot depends on the one before it, the first on none, and no
-- hash occurs twice.
use midnight_rs.Base.{
  ℕ, ◌≡◌, refl, sym, ◌∙◌, Bool, true, false, ◌||◌, not, Option, none, some, List, [], ◌∷◌, ◌++◌,
  arith, ◌==◌, any, retain, is_empty, append_assoc,
}
use midnight_rs.PrivateState.Types.{Snapshot, eq_option}
use midnight_rs.PrivateState.Graph.{is_referenced}

abbrev pub has : List Snapshot → ℕ → Bool
has c h = any (λ t. t.extrinsic_hash == h) c

abbrev pub Linked : Option ℕ → List Snapshot → Type 0
Linked prev [] = Unit
Linked prev (s ∷ c) = (s.depends_on ≡ prev) × Linked (some s.extrinsic_hash) c

abbrev pub Distinct : List Snapshot → Type 0
Distinct [] = Unit
Distinct (s ∷ c) = (has c s.extrinsic_hash ≡ false) × Distinct c

pub record IsChain (c : List Snapshot) : Type 0 where
  pub linked : Linked none c
  pub distinct : Distinct c

abbrev pub first : List Snapshot → List Snapshot
first [] = []
first (s ∷ c) = s ∷ []

abbrev pub last : List Snapshot → List Snapshot
last [] = []
last (s ∷ []) = s ∷ []
last (s ∷ t ∷ c) = last (t ∷ c)

-- No snapshot of the chain has this hash.
abbrev Lacks : List Snapshot → Option ℕ → Type 0
Lacks c q = any (λ t. eq_option (some t.extrinsic_hash) q) c ≡ false

none_after :
    (c : List Snapshot) (prev q : Option ℕ)
    → Linked prev c
    → eq_option prev q ≡ false
    → Lacks c q
    → retain (λ s. eq_option s.depends_on q) c ≡ []
none_after [] prev q l ne lacks = refl
none_after (s ∷ c) prev q l ne lacks = ground (arith, none_after c (some s.extrinsic_hash) q l.1)

first_after :
    (c : List Snapshot) (prev q : Option ℕ)
    → Linked prev c
    → eq_option prev q ≡ true
    → Lacks c q
    → retain (λ s. eq_option s.depends_on q) c ≡ first c
first_after [] prev q l e lacks = refl
first_after (s ∷ c) prev q l e lacks = ground (arith, none_after c (some s.extrinsic_hash) q l.1)

-- The roots of a chain.
pub roots-chain :
    (c : List Snapshot) → Linked none c → retain (λ s. eq_option s.depends_on none) c ≡ first c
roots-chain c l = first_after c none none l refl (lacks_none c)
  where
    lacks_none : (c : List Snapshot) → Lacks c none
    lacks_none [] = refl
    lacks_none (s ∷ c) = lacks_none c

pub has-append : (c d : List Snapshot) (h : ℕ) → has (c ++ d) h ≡ (has c h || has d h)
has-append [] d h = refl
has-append (s ∷ c) d h = ground (arith, has-append c d h)

pub ==-symm : (a b : ℕ) → (a == b) ≡ (b == a)
==-symm a b = ground arith

-- The only child of a snapshot of a chain is the next one.
dependents :
    (before : List Snapshot) (s : Snapshot) (after : List Snapshot) (prev : Option ℕ)
    → Linked prev (before ++ s ∷ after)
    → Distinct (before ++ s ∷ after)
    → eq_option prev (some s.extrinsic_hash) ≡ false
    → retain (λ t. eq_option t.depends_on (some s.extrinsic_hash)) (before ++ s ∷ after)
      ≡ first after
dependents [] s after prev l d ne =
    ground (arith, first_after after (some s.extrinsic_hash) (some s.extrinsic_hash) l.1)
dependents (t ∷ before) s after prev l d ne = ground (
  arith,
  has-append before (s ∷ after) t.extrinsic_hash,
  ==-symm s.extrinsic_hash t.extrinsic_hash,
  dependents before s after (some t.extrinsic_hash) l.1 d.1,
)

pub dependents-chain :
    (before : List Snapshot) (s : Snapshot) (after : List Snapshot)
    → IsChain (before ++ s ∷ after)
    → retain (λ t. eq_option t.depends_on (some s.extrinsic_hash)) (before ++ s ∷ after)
      ≡ first after
dependents-chain before s after c = dependents before s after none c.linked c.distinct refl

any-retain_nonempty :
    {A : Type 0} (p : A → Bool) (xs : List A) → any p xs ≡ not (is_empty (retain p xs))
any-retain_nonempty p [] = refl
any-retain_nonempty p (x ∷ xs) = ground (arith, any-retain_nonempty p xs)

-- A snapshot of a chain is referenced exactly if another one follows.
referenced-chain :
    (before : List Snapshot) (s : Snapshot) (after : List Snapshot)
    → IsChain (before ++ s ∷ after)
    → is_referenced (before ++ s ∷ after) s.extrinsic_hash ≡ not (is_empty after)
referenced-chain before s after c =
    any-retain_nonempty _ (before ++ s ∷ after)
    ∙ rw (dependents-chain before s after c) (nonempty after)
  where
    nonempty : (after : List Snapshot) → not (is_empty (first after)) ≡ not (is_empty after)
    nonempty [] = refl
    nonempty (t ∷ after) = refl

-- The leaves of a chain, of which `rest` is a part at the end.
leaves_of_rest :
    (full before rest : List Snapshot)
    → full ≡ before ++ rest
    → IsChain full
    → retain (λ s. not (is_referenced full s.extrinsic_hash)) rest ≡ last rest
leaves_of_rest full before [] e c = refl
leaves_of_rest full before (s ∷ rest) e c =
    step rest (rw (← e) at (referenced-chain before s rest (rw e at c))) (
      leaves_of_rest full (before ++ (s ∷ [])) rest (e ∙ sym (append_assoc before (s ∷ []) rest)) c)
  where
    step :
        (rest : List Snapshot)
        → is_referenced full s.extrinsic_hash ≡ not (is_empty rest)
        → retain (λ s. not (is_referenced full s.extrinsic_hash)) rest ≡ last rest
        → retain (λ s. not (is_referenced full s.extrinsic_hash)) (s ∷ rest) ≡ last (s ∷ rest)
    step [] r ih = rw r
    step (t ∷ rest) r ih = rw r ih

pub leaves-chain :
    (c : List Snapshot)
    → IsChain c
    → retain (λ s. not (is_referenced c s.extrinsic_hash)) c ≡ last c
leaves-chain c h = leaves_of_rest c [] c refl h
