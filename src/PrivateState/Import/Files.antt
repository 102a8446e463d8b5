-- ===== src/PrivateState/Import/Files.antt =====
-- What the writes of an import do to the snapshot that stands under a hash.
use midnight_rs.Base.{
  ℕ, zero, suc, ◌≡◌, refl, Bool, true, false, Option, none, some, List, [], ◌∷◌, ◌++◌, ◌==◌, arith,
  Bool-cases, Option-cases, subst, inl, inr,
}
use midnight_rs.PrivateState.Types.{Snapshot}
use midnight_rs.PrivateState.Graph.{by_hash}
use midnight_rs.PrivateState.Graph.Shuffle.{insert_at}
use midnight_rs.PrivateState.Store.{is_listed, find_snapshot, is_confirmed}
use midnight_rs.PrivateState.Import.{replace_file}

-- A new file under another hash.
pub by_hash-insert_at :
    (place : ℕ) (s : Snapshot) (files : List Snapshot) (h : ℕ)
    → (s.extrinsic_hash == h) ≡ false
    → by_hash (insert_at place s files) h ≡ by_hash files h
by_hash-insert_at zero s files h ne = ground arith
by_hash-insert_at (suc place) s [] h ne = ground arith
by_hash-insert_at (suc place) s (t ∷ files) h ne = rw (by_hash-insert_at place s files h ne)

pub by_hash-append :
    (files : List Snapshot) (s : Snapshot) (h : ℕ)
    → (s.extrinsic_hash == h) ≡ false
    → by_hash (files ++ s ∷ []) h ≡ by_hash files h
by_hash-append [] s h ne = rw ne
by_hash-append (t ∷ files) s h ne = rw (by_hash-append files s h ne)

pub by_hash-replace_file :
    (s : Snapshot) (files : List Snapshot) (h : ℕ)
    → (s.extrinsic_hash == h) ≡ false
    → by_hash (replace_file s files) h ≡ by_hash files h
by_hash-replace_file s [] h ne = refl
by_hash-replace_file s (t ∷ files) h ne = ground (arith, by_hash-replace_file s files h ne)

-- Under a hash there is a snapshot exactly if the hash is listed.
pub by_hash-none :
    (files : List Snapshot) (h : ℕ) → by_hash files h ≡ none → is_listed files h ≡ false
by_hash-none [] h e = refl
by_hash-none (s ∷ files) h e = ground (arith, by_hash-none files h)

find_snapshot-none :
    (files : List Snapshot) (h : ℕ) → is_listed files h ≡ false → find_snapshot files h ≡ none
find_snapshot-none [] h e = refl
find_snapshot-none (s ∷ files) h e = ground (arith, find_snapshot-none files h)

-- Whether the first snapshot under a hash is there and confirmed.
abbrev pub confirmed_status : Option Snapshot → Bool
confirmed_status none = false
confirmed_status (some s) = is_confirmed s.status

abbrev pub has_confirmed : ℕ → List Snapshot → Bool
has_confirmed h files = confirmed_status (find_snapshot files h)

==→eq : (a b : ℕ) → (a == b) ≡ true → a ≡ b
==→eq a b h = ground arith

-- A new file cannot hide a snapshot: its hash is another one.
new_hash :
    (s : Snapshot) (files : List Snapshot) (h : ℕ)
    → is_listed files s.extrinsic_hash ≡ false
    → has_confirmed h files ≡ true
    → (s.extrinsic_hash == h) ≡ false
new_hash s files h new e = elim (Bool-cases (s.extrinsic_hash == h)) [
  | inr other ↦ other
  | inl same ↦
      let unlisted : is_listed files h ≡ false =
        subst (λ n. is_listed files n ≡ false) (==→eq s.extrinsic_hash h same) new in
      absurd (cc (rw (find_snapshot-none files h unlisted) at e))
]

find_snapshot-insert_at :
    (place : ℕ) (s : Snapshot) (files : List Snapshot) (h : ℕ)
    → (s.extrinsic_hash == h) ≡ false
    → find_snapshot (insert_at place s files) h ≡ find_snapshot files h
find_snapshot-insert_at zero s files h ne = rw ne
find_snapshot-insert_at (suc place) s [] h ne = rw ne
find_snapshot-insert_at (suc place) s (t ∷ files) h ne =
    rw (find_snapshot-insert_at place s files h ne)

pub has_confirmed-insert_at :
    (place : ℕ) (s : Snapshot) (files : List Snapshot) (h : ℕ)
    → is_listed files s.extrinsic_hash ≡ false
    → has_confirmed h files ≡ true
    → has_confirmed h (insert_at place s files) ≡ true
has_confirmed-insert_at place s files h new e =
    rw (find_snapshot-insert_at place s files h (new_hash s files h new e)) e

unlisted_by_hash :
    (files : List Snapshot) (h : ℕ) → is_listed files h ≡ false → by_hash files h ≡ none
unlisted_by_hash [] h e = refl
unlisted_by_hash (s ∷ files) h e = ground (arith, unlisted_by_hash files h)

-- What is under a hash in the rest of a list counts for the whole list.
later_counts :
    (t : Snapshot) (files : List Snapshot) (h : ℕ)
    → confirmed_status (by_hash (t ∷ files) h) ≡ false
    → confirmed_status (by_hash files h) ≡ false
later_counts t files h e = elim (Option-cases (by_hash files h)) [
  | inl gone ↦ rw gone refl
  | inr (u, found) ↦ rw found (rw found at e)
]

-- The last file of its hash is replaced.
replaced_here :
    (s t : Snapshot) (files : List Snapshot) (h : ℕ)
    → is_listed files s.extrinsic_hash ≡ false
    → (t.extrinsic_hash == s.extrinsic_hash) ≡ true
    → (is_confirmed s.status ≡ false
        → confirmed_status (by_hash (t ∷ files) s.extrinsic_hash) ≡ false)
    → has_confirmed h (t ∷ files) ≡ true
    → has_confirmed h (s ∷ files) ≡ true
replaced_here s t files h new same safe e =
    let safe' = rw (unlisted_by_hash files s.extrinsic_hash new, same) at safe in
    let eq = ==→eq t.extrinsic_hash s.extrinsic_hash same in
    elim (Bool-cases (s.extrinsic_hash == h)) [
      | inr other ↦
          let other' : (t.extrinsic_hash == h) ≡ false = rw eq other in rw other (rw other' at e)
      | inl here ↦
          let here' : (t.extrinsic_hash == h) ≡ true = rw eq here in
          rw here (ground (arith, safe', rw here' at e))
    ]

pub has_confirmed-replace_file :
    (s : Snapshot) (files : List Snapshot) (h : ℕ)
    → (is_confirmed s.status ≡ false → confirmed_status (by_hash files s.extrinsic_hash) ≡ false)
    → has_confirmed h files ≡ true
    → has_confirmed h (replace_file s files) ≡ true
has_confirmed-replace_file s [] h safe e = cc
has_confirmed-replace_file s (t ∷ files) h safe e =
    elim (Bool-cases (is_listed files s.extrinsic_hash)) [
      | inl listed ↦ rw listed (next (has_confirmed-replace_file s files h later) e)
      | inr new ↦ elim (Bool-cases (t.extrinsic_hash == s.extrinsic_hash)) [
        | inl same ↦ rw (new, same) (replaced_here s t files h new same safe e)
        | inr other ↦ rw (new, other) (next (has_confirmed-replace_file s files h later) e)
      ]
    ]
  where
    later :
        is_confirmed s.status ≡ false → confirmed_status (by_hash files s.extrinsic_hash) ≡ false
    later p = later_counts t files s.extrinsic_hash (safe p)

    next :
        (has_confirmed h files ≡ true → has_confirmed h (replace_file s files) ≡ true)
        → has_confirmed h (t ∷ files) ≡ true
        → has_confirmed h (t ∷ replace_file s files) ≡ true
    next ih e' = elim (Bool-cases (t.extrinsic_hash == h)) [
      | inl here ↦ rw here (rw here at e')
      | inr there ↦ rw there (ih (rw there at e'))
    ]
