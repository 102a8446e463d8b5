-- ===== src/PrivateState/Import/Counts.antt =====
-- The counts that an import of snapshots answers with.
use midnight_rs.Base.{
  ℕ, suc, ◌+◌, ◌≡◌, refl, sym, ◌∙◌, Bool, true, false, List, [], ◌∷◌, map, Result, ok, err, length,
  arith, is_some, ap,
}
use midnight_rs.PrivateState.Types.{PrivateStateError}
use midnight_rs.PrivateState.Store.{Write}
use midnight_rs.PrivateState.Import.Stages.{met, OneStage, stage-ManyStages, plan-Planned}
use midnight_rs.PrivateState.Import.{
  ConflictStrategy, RawEntry, Entry, ImportResult, ImportError, Target, Views, Staged, Journals,
  admit, to_entry, stage, commit, on_committed, on_plan, plan, no_counts, apply_import_entries,
  commit_entry, with_directory, target_of,
}

abbrev pub total : ImportResult → ℕ
total r = r.imported + r.skipped + r.overwritten

-- What a strategy does not count: only `Skip` skips and only `Overwrite` overwrites.
abbrev pub Fits : ConflictStrategy → ImportResult → Type 0
Fits ConflictStrategy.skip r = r.overwritten ≡ 0
Fits ConflictStrategy.overwrite r = r.skipped ≡ 0
Fits ConflictStrategy.error r = (r.skipped ≡ 0) × (r.overwritten ≡ 0)

admit-total :
    (r : ImportResult) (exists : Bool) (c : ConflictStrategy) (r' : ImportResult) (write : Bool)
    → admit r exists c ≡ ok (r', write)
    → Fits c r
    → (total r' ≡ total r + 1) × Fits c r'
unfolding admit
admit-total r false ConflictStrategy.skip r' write e fits = ground arith
admit-total r false ConflictStrategy.overwrite r' write e fits = ground arith
admit-total r false ConflictStrategy.error r' write e fits = ground arith
admit-total r true ConflictStrategy.skip r' write e fits = ground arith
admit-total r true ConflictStrategy.overwrite r' write e fits = ground arith
admit-total r true ConflictStrategy.error r' write e fits = cc

-- The counts of what the staged entries do: stay away, replace a file, or make a new one.
abbrev pub add_target : Target → ImportResult → ImportResult
add_target Target.keep r = record r { skipped = r.skipped + 1 }
add_target Target.replace r = record r { overwritten = r.overwritten + 1 }
add_target Target.create r = record r { imported = r.imported + 1 }

abbrev pub tally : Staged → ImportResult → ImportResult
tally [] r = r
tally ((e, target) ∷ staged) r = tally staged (add_target target r)

admit-target :
    (r : ImportResult) (exists : Bool) (c : ConflictStrategy) (r' : ImportResult) (write : Bool)
    → admit r exists c ≡ ok (r', write)
    → r' ≡ add_target (target_of exists write) r
unfolding admit
admit-target r false c r' true e = cc
admit-target r false c r' false e = absurd (cc)
admit-target r true ConflictStrategy.skip r' true e = absurd (cc)
admit-target r true ConflictStrategy.skip r' false e = cc
admit-target r true ConflictStrategy.overwrite r' true e = cc
admit-target r true ConflictStrategy.overwrite r' false e = absurd (cc)
admit-target r true ConflictStrategy.error r' write e = absurd (cc)

stage-tally :
    (c : ConflictStrategy) (es : List Entry) (views : Views) (r : ImportResult) (staged : Staged)
    (views' : Views) (r' : ImportResult)
    → stage c es views r ≡ ok (staged, views', r')
    → r' ≡ tally staged r
unfolding stage
stage-tally c [] views r staged views' r' h =
    let none_staged : staged ≡ [] = cc in let same : r' ≡ r = cc in rw none_staged same
stage-tally c (e ∷ es) views r staged views' r' h =
    let s = stage-ManyStages c e es views r staged views' r' h in
    let counted : s.r' ≡ add_target s.target r =
      admit-target r (is_some (met e views)) c s.r' s.one.write s.one.admitted
      ∙ ap (λ t. add_target t r) (sym s.one.target_is) in
    let rest : r' ≡ tally s.staged' s.r' =
      stage-tally c es s.views' s.r' s.staged' views' r' s.more in
    rw s.parts (rest ∙ ap (tally s.staged') counted)

OneStage-total :
    (c : ConflictStrategy) (e : Entry) (views : Views) (r : ImportResult) (target : Target)
    (views' : Views) (r' : ImportResult)
    → OneStage c e views r target views' r'
    → Fits c r
    → (total r' ≡ total r + 1) × Fits c r'
OneStage-total c e views r target views' r' s fits =
    admit-total r (is_some (met e views)) c r' s.write s.admitted fits

stage-total :
    (c : ConflictStrategy) (es : List Entry) (views : Views) (r : ImportResult) (staged : Staged)
    (views' : Views) (r' : ImportResult)
    → stage c es views r ≡ ok (staged, views', r')
    → Fits c r
    → (total r' ≡ total r + length es) × Fits c r'
unfolding stage
stage-total c [] views r staged views' r' h fits =
    let same : r ≡ r' = cc in (rw (← same) (omega arith), rw (← same) fits)
stage-total c (e ∷ es) views r staged views' r' h fits =
    let s = stage-ManyStages c e es views r staged views' r' h in
    let (one, fits1) = OneStage-total c e views r s.target s.views' s.r' s.one fits in
    let (rest, fits2) = stage-total c es s.views' s.r' s.staged' views' r' s.more fits1 in
    (omega arith, fits2)

on_committed-ok :
    (result r : ImportResult) (answer : Result PrivateStateError (Unit {0})) (journals : Journals)
    (rest : Journals × Result ImportError ImportResult)
    → (on_committed result answer journals rest).1 ≡ ok r
    → rest.1 ≡ ok r
on_committed-ok result r (ok _) journals rest h = h
on_committed-ok result r (err x) journals rest h = cc

pub commit-counts :
    (result : ImportResult) (staged : Staged) (fs : ℕ → Write × ℕ) (journals : Journals)
    (r : ImportResult)
    → (commit result staged fs journals).1 ≡ ok r
    → result ≡ r
unfolding commit
commit-counts result [] fs journals r h = cc
commit-counts result ((e, target) ∷ staged) fs journals r h =
    let (dir, answer) = commit_entry e target (fs 0).0 (fs 0).1 (journals e.address) in
    let journals' = with_directory e.address dir journals in
    commit-counts result staged (λ n. fs (suc n)) journals' r
      (on_committed-ok result r answer journals' (commit result staged (λ n. fs (suc n)) journals')
        h)

on_plan-counts :
    (p : Result ImportError (Staged × ImportResult)) (fs : ℕ → Write × ℕ) (journals : Journals)
    (r : ImportResult)
    → (on_plan p fs journals).1 ≡ ok r
    → (staged : Staged) × (p ≡ ok (staged, r))
on_plan-counts (err x) fs journals r h = cc
on_plan-counts (ok (staged, result)) fs journals r h =
    (staged, rw (commit-counts result staged fs journals r h))

length-map_entries : (raw : List RawEntry) → length (map to_entry raw) ≡ length raw
length-map_entries [] = refl
length-map_entries (e ∷ raw) = ap suc (length-map_entries raw)

no_counts-Fits : (c : ConflictStrategy) → Fits c no_counts
no_counts-Fits ConflictStrategy.skip = refl
no_counts-Fits ConflictStrategy.overwrite = refl
no_counts-Fits ConflictStrategy.error = (refl, refl)

-- An import that answers with counts has decided every entry of its payload: the imported, skipped and
-- overwritten ones are together as many as the entries, none is skipped but under `Skip`, and none is
-- overwritten but under `Overwrite`. And they count what the import's plan does: an imported entry
-- makes a new file, a skipped one writes nothing, and an overwritten one replaces a file.
pub apply_import_entries-counts :
    (raw : List RawEntry) (c : ConflictStrategy) (fs : ℕ → Write × ℕ) (journals : Journals)
    (r : ImportResult)
    → (apply_import_entries raw c fs journals).1 ≡ ok r
    → (total r ≡ length raw)
      × Fits c r
      × ((staged : Staged) × (plan raw c journals ≡ ok (staged, r)) × (r ≡ tally staged no_counts))
unfolding apply_import_entries
apply_import_entries-counts raw c fs journals r h =
    let (staged, p) = on_plan-counts (plan raw c journals) fs journals r h in
    let passes = plan-Planned raw c journals staged r p in
    let views : Views = λ a. (journals a).files in
    let (counted, fits) =
      stage-total c (map to_entry raw) views no_counts staged passes.views r passes.staging
        (no_counts-Fits c) in
    (
      omega (arith, length-map_entries raw),
      fits,
      (
        staged,
        p,
        stage-tally c (map to_entry raw) views no_counts staged passes.views r passes.staging,
      ),
    )
