-- ===== src/PrivateState/Import/Untouched.antt =====
-- midnight-private-state/src/fs.rs: what an import leaves alone, of its own directories and of others.
use midnight_rs.Base.{
  ℕ, suc, ◌≡◌, refl, Bool, true, false, ◌||◌, List, [], ◌∷◌, map, some, ok, err, ◌⊎◌, inl, inr,
  ◌==◌, any, Result-cases, Bool-cases, ap, ◌∙◌,
}
use midnight_rs.PrivateState.Types.{PrivateStateError}
use midnight_rs.PrivateState.Store.{Directory, Write, marks}
use midnight_rs.PrivateState.Import.{
  ConflictStrategy, RawEntry, Entry, ImportResult, ImportError, Target, Views, Staged, Journals,
  to_entry, stage, commit_entry, commit, plan, write_to, with_directory, no_counts,
  apply_import_entries,
}
use midnight_rs.PrivateState.Import.Stages.{stage-ManyStages, plan-Planned}

-- A failure that the file system or a foreign address marker makes.
abbrev pub OfStorage : PrivateStateError → Type 0
OfStorage x = (x ≡ PrivateStateError.io) ⊎ (x ≡ PrivateStateError.wrong_marker)

write_to-err :
    (t : Target) (w : Write) (place : ℕ) (e : Entry) (dir : Directory) (x : PrivateStateError)
    → (write_to t w place e.snapshot dir).1 ≡ err x
    → OfStorage x
write_to-err Target.keep w place e dir x h = cc
write_to-err Target.replace Write.written place e dir x h = cc
write_to-err Target.replace Write.failed place e dir x h = inl (cc)
write_to-err Target.replace Write.failed_left place e dir x h = inl (cc)
write_to-err Target.create Write.written place e dir x h = cc
write_to-err Target.create Write.failed place e dir x h = inl (cc)
write_to-err Target.create Write.failed_left place e dir x h = inl (cc)

commit_entry-err :
    (e : Entry) (t : Target) (w : Write) (place : ℕ) (dir : Directory) (x : PrivateStateError)
    → (commit_entry e t w place dir).1 ≡ err x
    → OfStorage x
unfolding commit_entry
commit_entry-err e t w place dir x h = elim (Bool-cases (marks dir.marker e.address)) [
  | inl fits ↦ write_to-err t w place e (record dir { marker = some e.address }) x (rw fits at h)
  | inr other ↦ inr (let same = rw other at h in cc)
]

abbrev pub FromStorage : ImportError → Type 0
FromStorage x = (p : PrivateStateError) × (x ≡ ImportError.storage p) × OfStorage p

commit-err :
    (result : ImportResult) (staged : Staged) (fs : ℕ → Write × ℕ) (journals : Journals)
    (x : ImportError)
    → (commit result staged fs journals).1 ≡ err x
    → FromStorage x
unfolding commit
commit-err result [] fs journals x h = cc
commit-err result ((e, t) ∷ staged) fs journals x h =
    let done = commit_entry e t (fs 0).0 (fs 0).1 (journals e.address) in
    elim (Result-cases done.1) [
      | inl (_, good) ↦
          commit-err result staged (λ n. fs (suc n)) (with_directory e.address done.0 journals) x
            (rw good at h)
      | inr (p, bad) ↦ (
        p,
        (let same = rw bad at h in cc),
        commit_entry-err e t (fs 0).0 (fs 0).1 (journals e.address) p bad,
      )
    ]

-- Whether an address is among those of the entries.
abbrev pub names : ℕ → List Entry → Bool
names a es = any (λ e. e.address == a) es

abbrev pub staged_entries : Staged → List Entry
staged_entries [] = []
staged_entries ((e, t) ∷ staged) = e ∷ staged_entries staged

or-false : (b c : Bool) → (b || c) ≡ false → (b ≡ false) × (c ≡ false)
or-false false c h = (refl, h)
or-false true c h = cc

with_directory-elsewhere :
    (e : Entry) (dir : Directory) (journals : Journals) (a : ℕ)
    → (e.address == a) ≡ false
    → with_directory e.address dir journals a ≡ journals a
with_directory-elsewhere e dir journals a h = rw h

commit-elsewhere :
    (result : ImportResult) (staged : Staged) (fs : ℕ → Write × ℕ) (journals : Journals) (a : ℕ)
    → names a (staged_entries staged) ≡ false
    → (commit result staged fs journals).0 a ≡ journals a
unfolding commit
commit-elsewhere result [] fs journals a h = refl
commit-elsewhere result ((e, t) ∷ staged) fs journals a h =
    let (here, later) = or-false (e.address == a) (names a (staged_entries staged)) h in
    let done = commit_entry e t (fs 0).0 (fs 0).1 (journals e.address) in
    let same = with_directory-elsewhere e done.0 journals a here in
    elim (Result-cases done.1) [
      | inl (_, good) ↦ rw good (
          commit-elsewhere result staged (λ n. fs (suc n))
            (with_directory e.address done.0 journals) a later
          ∙ same)
      | inr (p, bad) ↦ rw bad same
    ]

pub stage-entries :
    (c : ConflictStrategy) (es : List Entry) (views : Views) (r : ImportResult) (staged : Staged)
    (views' : Views) (r' : ImportResult)
    → stage c es views r ≡ ok (staged, views', r')
    → staged_entries staged ≡ es
unfolding stage
stage-entries c [] views r staged views' r' h = let same : staged ≡ [] = cc in rw same
stage-entries c (e ∷ es) views r staged views' r' h =
    let s = stage-ManyStages c e es views r staged views' r' h in
    rw s.parts (ap (λ l. e ∷ l) (stage-entries c es s.views' s.r' s.staged' views' r' s.more))

-- An import that is refused for anything but a failure of the file system or a foreign address marker
-- leaves every directory as it was; and, however it ends, it leaves the directory of each address that
-- its payload does not name.
pub apply_import_entries-untouched :
    (raw : List RawEntry) (c : ConflictStrategy) (fs : ℕ → Write × ℕ) (journals : Journals)
    → let (after, answer) = apply_import_entries raw c fs journals in
      ((x : ImportError) → answer ≡ err x → (after ≡ journals) ⊎ FromStorage x)
      × ((a : ℕ) → names a (map to_entry raw) ≡ false → after a ≡ journals a)
unfolding apply_import_entries
apply_import_entries-untouched raw c fs journals = elim (Result-cases (plan raw c journals)) [
  | inr (x, refused) ↦ rw refused (λ y h. inl refl, λ a h. refl)
  | inl ((staged, result), planned) ↦
      let passes = plan-Planned raw c journals staged result planned in
      let same =
        stage-entries c (map to_entry raw) (λ a. (journals a).files) no_counts staged passes.views
          result passes.staging in
      rw planned (
        λ x h. inr (commit-err result staged fs journals x h),
        λ a h. commit-elsewhere result staged fs journals a (rw same h),
      )
]
