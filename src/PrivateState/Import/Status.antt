-- ===== src/PrivateState/Import/Status.antt =====
-- midnight-private-state/src/fs.rs: confirmed snapshots and the imports that meet them.
use midnight_rs.Base.{
  ℕ, suc, ◌≡◌, refl, ◌∙◌, true, false, some, List, [], ◌∷◌, map, ◌==◌, Bool-cases, Result-cases,
  inl, inr, All,
}
use midnight_rs.PrivateState.Types.{Snapshot}
use midnight_rs.PrivateState.Graph.{by_hash}
use midnight_rs.PrivateState.Store.{Directory, Write, marks}
use midnight_rs.PrivateState.Import.{
  ConflictStrategy, RawEntry, Entry, ImportResult, Target, Views, Staged, Journals, to_entry,
  same_key, write_to, commit_entry, commit, with_directory, plan, no_counts, apply_import_entries,
}
use midnight_rs.PrivateState.Import.Stages.{plan-Planned}
use midnight_rs.PrivateState.Import.Files.{
  by_hash-insert_at, by_hash-replace_file, by_hash-none, has_confirmed, has_confirmed-insert_at,
  has_confirmed-replace_file,
}
use midnight_rs.PrivateState.Import.Untouched.{staged_entries, stage-entries}
use midnight_rs.PrivateState.Import.Suits.{
  Apart, Suits, Agrees, SuitAll, reject_duplicates-Apart, stage-SuitAll, ==→eq,
}

-- The files after a write that is staged for another hash, or that leaves the files alone.
write_to-other :
    (t : Target) (w : Write) (place : ℕ) (s : Snapshot) (dir : Directory) (h : ℕ)
    → (s.extrinsic_hash == h) ≡ false
    → by_hash (write_to t w place s dir).0.files h ≡ by_hash dir.files h
write_to-other Target.keep w place s dir h ne = refl
write_to-other Target.replace Write.failed place s dir h ne = refl
write_to-other Target.replace Write.written place s dir h ne = by_hash-replace_file s dir.files h ne
write_to-other Target.replace Write.failed_left place s dir h ne =
    by_hash-replace_file s dir.files h ne
write_to-other Target.create Write.failed place s dir h ne = refl
write_to-other Target.create Write.written place s dir h ne =
    by_hash-insert_at place s dir.files h ne
write_to-other Target.create Write.failed_left place s dir h ne =
    by_hash-insert_at place s dir.files h ne

commit_entry-other :
    (e : Entry) (t : Target) (w : Write) (place : ℕ) (dir : Directory) (h : ℕ)
    → (e.snapshot.extrinsic_hash == h) ≡ false
    → by_hash (commit_entry e t w place dir).0.files h ≡ by_hash dir.files h
unfolding commit_entry
commit_entry-other e t w place dir h ne = elim (Bool-cases (marks dir.marker e.address)) [
  | inl fits ↦
      rw fits (write_to-other t w place e.snapshot (record dir { marker = some e.address }) h ne)
  | inr foreign ↦ rw foreign
]

-- A write that suits the file it meets takes no confirmation back.
write_to-confirmed :
    (t : Target) (w : Write) (place : ℕ) (e : Entry) (dir : Directory) (h : ℕ)
    → Suits e t (by_hash dir.files e.snapshot.extrinsic_hash)
    → has_confirmed h dir.files ≡ true
    → has_confirmed h (write_to t w place e.snapshot dir).0.files ≡ true
write_to-confirmed Target.keep w place e dir h suits c = c
write_to-confirmed Target.replace Write.failed place e dir h suits c = c
write_to-confirmed Target.replace Write.written place e dir h suits c =
    has_confirmed-replace_file e.snapshot dir.files h (suits.replaces refl) c
write_to-confirmed Target.replace Write.failed_left place e dir h suits c =
    has_confirmed-replace_file e.snapshot dir.files h (suits.replaces refl) c
write_to-confirmed Target.create Write.failed place e dir h suits c = c
write_to-confirmed Target.create Write.written place e dir h suits c =
    has_confirmed-insert_at place e.snapshot dir.files h
      (by_hash-none dir.files e.snapshot.extrinsic_hash (suits.creates refl)) c
write_to-confirmed Target.create Write.failed_left place e dir h suits c =
    has_confirmed-insert_at place e.snapshot dir.files h
      (by_hash-none dir.files e.snapshot.extrinsic_hash (suits.creates refl)) c

commit_entry-confirmed :
    (e : Entry) (t : Target) (w : Write) (place : ℕ) (dir : Directory) (h : ℕ)
    → Suits e t (by_hash dir.files e.snapshot.extrinsic_hash)
    → has_confirmed h dir.files ≡ true
    → has_confirmed h (commit_entry e t w place dir).0.files ≡ true
unfolding commit_entry
commit_entry-confirmed e t w place dir h suits c = elim (Bool-cases (marks dir.marker e.address)) [
  | inl fits ↦
      rw fits (write_to-confirmed t w place e (record dir { marker = some e.address }) h suits c)
  | inr foreign ↦ rw foreign c
]

module _ (e : Entry) (t : Target) (w : Write) (place : ℕ) (journals : Journals) where
  abbrev committed : Journals
  committed = with_directory e.address (commit_entry e t w place (journals e.address)).0 journals

  committed-other :
      (d : Entry)
      → same_key e d ≡ false
      → by_hash (committed d.address).files d.snapshot.extrinsic_hash
        ≡ by_hash (journals d.address).files d.snapshot.extrinsic_hash
  committed-other d other = elim (Bool-cases (e.address == d.address)) [
    | inr elsewhere ↦ rw elsewhere
    | inl here ↦ rw here (
        commit_entry-other e t w place (journals e.address) d.snapshot.extrinsic_hash
          (rw here at other)
        ∙ (rw (==→eq e.address d.address here)))
  ]

  committed-SuitAll :
      (staged : Staged)
      → All (λ d. same_key e d ≡ false) (staged_entries staged)
      → SuitAll journals staged
      → SuitAll committed staged
  committed-SuitAll [] alone suits = tt
  committed-SuitAll ((d, t') ∷ staged) (other, alone) (suits, rest) =
      (rw (committed-other d other) suits, committed-SuitAll staged alone rest)

  committed-confirmed :
      (a h : ℕ)
      → Suits e t (by_hash (journals e.address).files e.snapshot.extrinsic_hash)
      → has_confirmed h (journals a).files ≡ true
      → has_confirmed h (committed a).files ≡ true
  committed-confirmed a h suits c = elim (Bool-cases (e.address == a)) [
    | inr elsewhere ↦ rw elsewhere c
    | inl here ↦ rw here (
        commit_entry-confirmed e t w place (journals e.address) h suits
          (rw (==→eq e.address a here) c))
  ]

commit-confirmed :
    (result : ImportResult) (staged : Staged) (fs : ℕ → Write × ℕ) (journals : Journals) (a h : ℕ)
    → Apart (staged_entries staged)
    → SuitAll journals staged
    → has_confirmed h (journals a).files ≡ true
    → has_confirmed h ((commit result staged fs journals).0 a).files ≡ true
unfolding commit
commit-confirmed result [] fs journals a h apart suits c = c
commit-confirmed result ((e, t) ∷ staged) fs journals a h (alone, apart) (suit, suits) c =
    let w = (fs 0).0 in
    let place = (fs 0).1 in
    let c' = committed-confirmed e t w place journals a h suit c in
    elim (Result-cases (commit_entry e t w place (journals e.address)).1) [
      | inr (p, bad) ↦ rw bad c'
      | inl (_, good) ↦ rw good (
          commit-confirmed result staged (λ n. fs (suc n)) (committed e t w place journals) a h
            apart (committed-SuitAll e t w place journals staged alone suits) c')
    ]

self_agree :
    (es : List Entry) (journals : Journals) → All (Agrees (λ a. (journals a).files) journals) es
self_agree [] journals = tt
self_agree (e ∷ es) journals = (refl, self_agree es journals)

-- An import, under every strategy and however it ends, takes no confirmation back: where the snapshot
-- under a hash at an address was confirmed, the snapshot under that hash at that address is confirmed
-- afterwards.
pub apply_import_entries-confirmed :
    (raw : List RawEntry) (c : ConflictStrategy) (fs : ℕ → Write × ℕ) (journals : Journals)
    (a h : ℕ)
    → has_confirmed h (journals a).files ≡ true
    → has_confirmed h ((apply_import_entries raw c fs journals).0 a).files ≡ true
unfolding apply_import_entries
apply_import_entries-confirmed raw c fs journals a h confirmed =
    elim (Result-cases (plan raw c journals)) [
      | inr (x, refused) ↦ rw refused confirmed
      | inl ((staged, result), planned) ↦
          let passes = plan-Planned raw c journals staged result planned in
          let es = map to_entry raw in
          let disk : Views = λ b. (journals b).files in
          let same = stage-entries c es disk no_counts staged passes.views result passes.staging in
          let apart = (reject_duplicates-Apart [] es passes.distinct).1 in
          rw planned (
            commit-confirmed result staged fs journals a h (rw same apart)
              (stage-SuitAll c es disk no_counts staged passes.views result journals passes.staging
                apart (self_agree es journals))
              confirmed)
    ]
