-- ===== src/PrivateState/Import/Suits.antt =====
-- midnight-private-state/src/fs.rs: the writes that the staging of an import decides, and the files that
-- they will meet.
use midnight_rs.Base.{
  ℕ, ◌≡◌, refl, sym, subst, ◌∙◌, Bool, true, false, ◌||◌, Option, none, some, List, [], ◌∷◌, ◌==◌,
  ok, any, is_some, arith, Bool-cases, inl, inr, All,
}
use midnight_rs.PrivateState.Types.{Snapshot}
use midnight_rs.PrivateState.Graph.{by_hash}
use midnight_rs.PrivateState.Store.{is_confirmed}
use midnight_rs.PrivateState.Import.{
  ConflictStrategy, Entry, ImportResult, Target, Views, Staged, Journals, same_key,
  reject_duplicates, admit, downgrades, target_of, with_view, stage,
}
use midnight_rs.PrivateState.Import.Stages.{met, stage-ManyStages}
use midnight_rs.PrivateState.Import.Files.{by_hash-append, confirmed_status}

-- No two entries have the same address and hash.
abbrev pub Apart : List Entry → Type 0
Apart [] = Unit
Apart (e ∷ es) = All (λ d. same_key e d ≡ false) es × Apart es

same_key_symm : (d e : Entry) → same_key d e ≡ false → same_key e d ≡ false
same_key_symm d e h = ground arith

or-false : (b c : Bool) → (b || c) ≡ false → (b ≡ false) × (c ≡ false)
or-false false c h = (refl, h)
or-false true c h = cc

pub ==→eq : (a b : ℕ) → (a == b) ≡ true → a ≡ b
==→eq a b h = ground arith

apart_from :
    (e : Entry) (seen es : List Entry)
    → All (λ d. any (same_key d) (e ∷ seen) ≡ false) es
    → All (λ d. any (same_key d) seen ≡ false) es × All (λ d. same_key e d ≡ false) es
apart_from e seen [] h = (tt, tt)
apart_from e seen (d ∷ es) (here, rest) =
    let (one, more) = or-false (same_key d e) (any (same_key d) seen) here in
    let (seen', es') = apart_from e seen es rest in ((more, seen'), (same_key_symm d e one, es'))

pub reject_duplicates-Apart :
    (seen es : List Entry)
    → reject_duplicates seen es ≡ ok tt
    → All (λ d. any (same_key d) seen ≡ false) es × Apart es
unfolding reject_duplicates
reject_duplicates-Apart seen [] h = (tt, tt)
reject_duplicates-Apart seen (e ∷ es) h = elim (Bool-cases (any (same_key e) seen)) [
  | inl twice ↦ absurd (cc (rw twice at h))
  | inr once ↦
      let (all_seen, apart) = reject_duplicates-Apart (e ∷ seen) es (rw once at h) in
      let (seen', es') = apart_from e seen es all_seen in ((once, seen'), (es', apart))
]

-- That a staged write fits the file that it meets.
pub record Suits (e : Entry) (t : Target) (there : Option Snapshot) : Type 0 where
  pub replaces :
      t ≡ Target.replace → is_confirmed e.snapshot.status ≡ false → confirmed_status there ≡ false
  pub creates : t ≡ Target.create → there ≡ none

decided :
    (c : ConflictStrategy) (there : Option Snapshot) (e : Entry) (r r' : ImportResult)
    (write : Bool) (t : Target)
    → downgrades c there e.snapshot.status ≡ false
    → admit r (is_some there) c ≡ ok (r', write)
    → t ≡ target_of (is_some there) write
    → Suits e t there
unfolding admit
decided c none e r r' write t kept admitted target = record {
  replaces = λ _ _. refl;
  creates = λ _. refl;
}
decided c (some s) e r r' write t kept admitted target = record {
  replaces = λ is p. ground arith;
  creates = λ is. ground arith;
}

abbrev pub Agrees : Views → Journals → Entry → Type 0
Agrees views journals e =
    by_hash (views e.address) e.snapshot.extrinsic_hash
    ≡ by_hash (journals e.address).files e.snapshot.extrinsic_hash

abbrev pub SuitAll : Journals → Staged → Type 0
SuitAll journals [] = Unit
SuitAll journals ((e, t) ∷ staged) =
    Suits e t (by_hash (journals e.address).files e.snapshot.extrinsic_hash)
    × SuitAll journals staged

with_view-other :
    (write : Bool) (d e : Entry) (views : Views)
    → same_key d e ≡ false
    → by_hash (with_view write d views e.address) e.snapshot.extrinsic_hash
      ≡ by_hash (views e.address) e.snapshot.extrinsic_hash
with_view-other false d e views h = refl
with_view-other true d e views h = elim (Bool-cases (d.address == e.address)) [
  | inl same ↦
      rw same (by_hash-append (views e.address) d.snapshot e.snapshot.extrinsic_hash (rw same at h))
  | inr other ↦ rw other
]

Agrees-with_view :
    (write : Bool) (e : Entry) (views : Views) (journals : Journals) (ds : List Entry)
    → All (λ d. same_key e d ≡ false) ds
    → All (Agrees views journals) ds
    → All (Agrees (with_view write e views) journals) ds
Agrees-with_view write e views journals [] alone others = tt
Agrees-with_view write e views journals (d ∷ ds) (other, alone) (one, others) = (
  with_view-other write e d views other ∙ one,
  Agrees-with_view write e views journals ds alone others,
)

pub stage-SuitAll :
    (c : ConflictStrategy) (es : List Entry) (views : Views) (r : ImportResult) (staged : Staged)
    (views' : Views) (r' : ImportResult) (journals : Journals)
    → stage c es views r ≡ ok (staged, views', r')
    → Apart es
    → All (Agrees views journals) es
    → SuitAll journals staged
unfolding stage
stage-SuitAll c [] views r staged views' r' journals h apart agrees =
    let none_staged : [] ≡ staged = cc in subst (SuitAll journals) none_staged tt
stage-SuitAll c (e ∷ es) views r staged views' r' journals h (alone, apart) (agrees, others) =
    let s = stage-ManyStages c e es views r staged views' r' h in
    let suits =
      decided c (met e views) e r s.r' s.one.write s.target s.one.kept s.one.admitted
        s.one.target_is in
    subst (SuitAll journals) (sym s.parts) (
      rw agrees at suits,
      stage-SuitAll c es s.views' s.r' s.staged' views' r' journals s.more apart
          (rw s.one.views_are (Agrees-with_view s.one.write e views journals es alone others)),
    )
