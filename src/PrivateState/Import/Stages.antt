-- ===== src/PrivateState/Import/Stages.antt =====
-- What the staging of an import's entries tells, entry by entry.
use midnight_rs.Base.{
  ◌≡◌, Bool, false, Option, List, [], ◌∷◌, ok, >>=-eq-ok, is_some, map, Bool-cases, inl, inr,
}
use midnight_rs.PrivateState.Graph.{by_hash}
use midnight_rs.PrivateState.Import.{
  ConflictStrategy, Entry, ImportResult, Target, Views, Staged, admit, downgrades, target_of,
  with_view, stage_entry, stage, RawEntry, Journals, validate, reject_duplicates, to_entry,
  check_journals, addresses, no_counts, plan,
}

-- The snapshot that an entry meets.
abbrev pub met : Entry → Views → Option midnight_rs.PrivateState.Types.Snapshot
met e views = by_hash (views e.address) e.snapshot.extrinsic_hash

pub record OneStage (c : ConflictStrategy) (e : Entry) (views : Views) (r : ImportResult)
    (target : Target) (views' : Views) (r' : ImportResult) : Type 0 where
  pub write : Bool
  pub kept : downgrades c (met e views) e.snapshot.status ≡ false
  pub admitted : admit r (is_some (met e views)) c ≡ ok (r', write)
  pub target_is : target ≡ target_of (is_some (met e views)) write
  pub views_are : views' ≡ with_view write e views

pub stage_entry-OneStage :
    (c : ConflictStrategy) (e : Entry) (views : Views) (r : ImportResult) (target : Target)
    (views' : Views) (r' : ImportResult)
    → stage_entry c e views r ≡ ok (target, views', r')
    → OneStage c e views r target views' r'
unfolding stage_entry
stage_entry-OneStage c e views r target views' r' h =
    elim (Bool-cases (downgrades c (met e views) e.snapshot.status)) [
      | inl bad ↦ absurd (cc (rw bad at h))
      | inr good ↦
          let ((r1, write), a, rest) =
            >>=-eq-ok (admit r (is_some (met e views)) c) _ (rw good at h) in
          record { write = write; kept = good; admitted = cc; target_is = cc; views_are = cc }
    ]

pub record ManyStages (c : ConflictStrategy) (e : Entry) (es : List Entry) (views : Views)
    (r : ImportResult) (staged : Staged) (views'' : Views) (r'' : ImportResult) : Type 0 where
  pub target : Target
  pub views' : Views
  pub r' : ImportResult
  pub staged' : Staged
  pub one : OneStage c e views r target views' r'
  pub more : stage c es views' r' ≡ ok (staged', views'', r'')
  pub parts : staged ≡ (e, target) ∷ staged'

pub stage-ManyStages :
    (c : ConflictStrategy) (e : Entry) (es : List Entry) (views : Views) (r : ImportResult)
    (staged : Staged) (views'' : Views) (r'' : ImportResult)
    → stage c (e ∷ es) views r ≡ ok (staged, views'', r'')
    → ManyStages c e es views r staged views'' r''
unfolding stage
stage-ManyStages c e es views r staged views'' r'' h =
    let ((target, views', r'), one, rest) = >>=-eq-ok (stage_entry c e views r) _ h in
    let ((staged', v2, r2), more, done) = >>=-eq-ok (stage c es views' r') _ rest in
    record {
      target = target;
      views' = views';
      r' = r';
      staged' = staged';
      one = stage_entry-OneStage c e views r target views' r' one;
      more = cc;
      parts = cc;
    }

-- The passes of a plan that is found.
pub record Planned (raw : List RawEntry) (c : ConflictStrategy) (journals : Journals)
    (staged : Staged) (r : ImportResult) : Type 0 where
  pub views : Views
  pub valid : validate raw ≡ ok tt
  pub distinct : reject_duplicates [] (map to_entry raw) ≡ ok tt
  pub staging :
      stage c (map to_entry raw) (λ a. (journals a).files) no_counts ≡ ok (staged, views, r)
  pub healthy : check_journals (addresses (map to_entry raw)) views ≡ ok tt

pub plan-Planned :
    (raw : List RawEntry) (c : ConflictStrategy) (journals : Journals) (staged : Staged)
    (r : ImportResult)
    → plan raw c journals ≡ ok (staged, r)
    → Planned raw c journals staged r
unfolding plan
plan-Planned raw c journals staged r h =
    let (_, valid, rest) = >>=-eq-ok (validate raw) _ h in
    let (_, distinct, rest') = >>=-eq-ok (reject_duplicates [] (map to_entry raw)) _ rest in
    let ((staged1, views, r1), staging, rest'') =
      >>=-eq-ok (stage c (map to_entry raw) (λ a. (journals a).files) no_counts) _ rest' in
    let (_, healthy, done) =
      >>=-eq-ok (check_journals (addresses (map to_entry raw)) views) _ rest'' in
    record { views = views; valid = valid; distinct = distinct; staging = cc; healthy = healthy }
