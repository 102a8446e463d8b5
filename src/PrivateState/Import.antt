-- ===== src/PrivateState/Import.antt =====
-- `apply_import_entries` and `validate_hash_field` of midnight-private-state/src/fs.rs, and
-- `ImportResult::admit` of lib.rs: the import of decrypted snapshots into the journals of several
-- addresses. A text is its bytes; the store is a function from addresses to directories, where a
-- directory that does not exist is empty. The order of the addresses is that of the payload.
pub mod Stages
pub mod Files
pub mod Counts
pub mod Hashes
pub mod Untouched
pub mod Suits
pub mod Status
mod Tests
use midnight_rs.Base.{
  ℕ, zero, suc, ◌+◌, ◌-◌, ◌*◌, Bool, true, false, ◌&&◌, ◌||◌, not, Option, none, some, List, [],
  ◌∷◌, ◌++◌, map, Result, ok, err, ◌>>=◌, ◌>>◌, leb, ◌==◌, if◌then◌else◌, is_some, all, any, length,
}
use midnight_rs.PrivateState.Types.{SnapshotStatus, Snapshot, PrivateStateError}
use midnight_rs.PrivateState.Graph.{by_hash, find_leaf, values}
use midnight_rs.PrivateState.Store.{Directory, Write, Answer, marks, put, is_listed}

pub data ConflictStrategy : Type 0 where
  skip overwrite error : ConflictStrategy

-- `ExportEntry`, with the hashes of its snapshot still texts.
pub record RawEntry : Type 0 where
  pub address : ℕ
  pub status : SnapshotStatus
  pub extrinsic_hash : List ℕ
  pub block_hash : Option (List ℕ)
  pub block_height : Option ℕ
  pub depends_on : Option (List ℕ)
  pub contents : List ℕ

pub record Entry : Type 0 where
  pub address : ℕ
  pub snapshot : Snapshot

pub record ImportResult : Type 0 where
  pub imported : ℕ
  pub skipped : ℕ
  pub overwritten : ℕ

pub data ImportError : Type 0 where
  bad_hash duplicate_entry downgrade import_conflict : ImportError
  malformed_at : ℕ → PrivateStateError → ImportError
  storage : PrivateStateError → ImportError

-- `is_ascii_digit() || (b'a'..=b'f').contains(&b)`
abbrev pub is_lowercase_hex : ℕ → Bool
is_lowercase_hex b = (leb b'0' b && leb b b'9') || (leb b'a' b && leb b b'f')

unfoldable pub validate_hash_field : Option (List ℕ) → Result ImportError (Unit {0})
validate_hash_field none = ok tt
validate_hash_field (some s) =
    if length s == 64 && all is_lowercase_hex s then ok tt else err ImportError.bad_hash

unfoldable pub validate_entry : RawEntry → Result ImportError (Unit {0})
unfolding validate_hash_field
validate_entry e = do
  validate_hash_field (some e.extrinsic_hash)
  validate_hash_field e.depends_on
  validate_hash_field e.block_hash

unfoldable pub validate : List RawEntry → Result ImportError (Unit {0})
unfolding validate_entry
validate [] = ok tt
validate (e ∷ es) = validate_entry e >> validate es

-- The number that a text of lowercase hex spells.
abbrev pub digit_value : ℕ → ℕ
digit_value b = if leb b b'9' then b - b'0' else b - b'a' + 10

abbrev pub spelled : ℕ → List ℕ → ℕ
spelled n [] = n
spelled n (b ∷ bs) = spelled (16 * n + digit_value b) bs

abbrev pub hash_value : List ℕ → ℕ
hash_value s = spelled 0 s

abbrev pub map_hash : Option (List ℕ) → Option ℕ
map_hash none = none
map_hash (some s) = some (hash_value s)

-- An entry whose fields were validated, with its hashes as numbers.
abbrev pub to_entry : RawEntry → Entry
to_entry e = record {
  address = e.address;
  snapshot = record {
    status = e.status;
    extrinsic_hash = hash_value e.extrinsic_hash;
    block_hash = map_hash e.block_hash;
    block_height = e.block_height;
    depends_on = map_hash e.depends_on;
    contents = e.contents;
  };
}

abbrev pub same_key : Entry → Entry → Bool
same_key a b = a.address == b.address && a.snapshot.extrinsic_hash == b.snapshot.extrinsic_hash

-- Pass 2, with the entries seen before.
unfoldable pub reject_duplicates : List Entry → List Entry → Result ImportError (Unit {0})
reject_duplicates seen [] = ok tt
reject_duplicates seen (e ∷ es) =
    let rest = reject_duplicates (e ∷ seen) es in
    if any (same_key e) seen then err ImportError.duplicate_entry else rest

-- `ImportResult::admit`
unfoldable pub admit :
    ImportResult → Bool → ConflictStrategy → Result ImportError (ImportResult × Bool)
admit r false _ = ok (record r { imported = r.imported + 1 }, true)
admit r true ConflictStrategy.skip = ok (record r { skipped = r.skipped + 1 }, false)
admit r true ConflictStrategy.overwrite = ok (record r { overwritten = r.overwritten + 1 }, true)
admit r true ConflictStrategy.error = err ImportError.import_conflict

-- Whether a confirmed snapshot would be overwritten by a pending one.
abbrev pub downgrades : ConflictStrategy → Option Snapshot → SnapshotStatus → Bool
downgrades _ none status = false
downgrades ConflictStrategy.overwrite (some s) SnapshotStatus.pending = elim s.status [
  | SnapshotStatus.pending ↦ false
  | SnapshotStatus.confirmed ↦ true
]
downgrades _ (some s) _ = false

-- Where a staged entry goes: nowhere, over the file that has its hash, or into a new file.
pub data Target : Type 0 where
  keep replace create : Target

abbrev pub target_of : Bool → Bool → Target
target_of exists false = Target.keep
target_of true true = Target.replace
target_of false true = Target.create

-- The merged journals in memory: of several snapshots with one hash the last one counts.
abbrev pub Views : Type 0
Views = ℕ → List Snapshot

abbrev pub with_view : Bool → Entry → Views → Views
with_view false e views = views
with_view true e views = λ a. if e.address == a then views a ++ e.snapshot ∷ [] else views a

abbrev pub Staged : Type 0
Staged = List (Entry × Target)

-- Pass 4, for one entry.
unfoldable pub stage_entry :
    ConflictStrategy
    → Entry
    → Views
    → ImportResult
    → Result ImportError (Target × Views × ImportResult)
unfolding admit
stage_entry conflict e views result =
    let existing = by_hash (views e.address) e.snapshot.extrinsic_hash in
    if downgrades conflict existing e.snapshot.status
    then err ImportError.downgrade
    else admit result (is_some existing) conflict >>= λ (result', write).
        ok (target_of (is_some existing) write, with_view write e views, result')

unfoldable pub stage :
    ConflictStrategy
    → List Entry
    → Views
    → ImportResult
    → Result ImportError (Staged × Views × ImportResult)
stage conflict [] views result = ok ([], views, result)
stage conflict (e ∷ es) views result =
    stage_entry conflict e views result >>= λ (target, views', result').
    stage conflict es views' result' >>= λ (staged, views'', result'').
    ok ((e, target) ∷ staged, views'', result'')

-- Pass 5.
unfoldable pub check_journals : List ℕ → Views → Result ImportError (Unit {0})
check_journals [] views = ok tt
check_journals (a ∷ as') views = elim (find_leaf (values (views a))) [
  | err e ↦ err (ImportError.malformed_at a e)
  | ok leaf ↦ check_journals as' views
]

abbrev pub Journals : Type 0
Journals = ℕ → Directory

abbrev pub with_directory : ℕ → Directory → Journals → Journals
with_directory a dir journals = λ b. if a == b then dir else journals b

-- The file of the last snapshot with the hash is replaced.
abbrev pub replace_file : Snapshot → List Snapshot → List Snapshot
replace_file s [] = []
replace_file s (t ∷ files) =
    if not (is_listed files s.extrinsic_hash) && (t.extrinsic_hash == s.extrinsic_hash)
    then s ∷ files
    else t ∷ replace_file s files

abbrev pub overwrite_with : Write → Snapshot → Directory → Answer (Unit {0})
overwrite_with Write.written s dir = (record dir { files = replace_file s dir.files }, ok tt)
overwrite_with Write.failed s dir = (dir, err PrivateStateError.io)
overwrite_with Write.failed_left s dir =
    (record dir { files = replace_file s dir.files }, err PrivateStateError.io)

abbrev pub write_to : Target → Write → ℕ → Snapshot → Directory → Answer (Unit {0})
write_to Target.keep write place s dir = (dir, ok tt)
write_to Target.replace write place s dir = overwrite_with write s dir
write_to Target.create write place s dir = put write place s dir

-- Pass 6, for one entry: the marker, and the file if there is one to write.
unfoldable pub commit_entry : Entry → Target → Write → ℕ → Directory → Answer (Unit {0})
commit_entry e target write place dir =
    if not (marks dir.marker e.address)
    then (dir, err PrivateStateError.wrong_marker)
    else write_to target write place e.snapshot (record dir { marker = some e.address })

-- What follows a commit of one entry.
abbrev pub on_committed :
    ImportResult
    → Result PrivateStateError (Unit {0})
    → Journals
    → Journals × Result ImportError ImportResult
    → Journals × Result ImportError ImportResult
on_committed result (err x) journals rest = (journals, err (ImportError.storage x))
on_committed result (ok _) journals rest = rest

-- `fs n` is what the file system makes of the write of entry n, and where it lists a new file.
unfoldable pub commit :
    ImportResult → Staged → (ℕ → Write × ℕ) → Journals → Journals × Result ImportError ImportResult
commit result [] fs journals = (journals, ok result)
commit result ((e, target) ∷ staged) fs journals =
    let (dir, answer) = commit_entry e target (fs 0).0 (fs 0).1 (journals e.address) in
    let journals' = with_directory e.address dir journals in
    let rest = commit result staged (λ n. fs (suc n)) journals' in
    on_committed result answer journals' rest

abbrev pub no_counts : ImportResult
no_counts = record { imported = 0; skipped = 0; overwritten = 0 }

abbrev pub addresses : List Entry → List ℕ
addresses entries = map (λ e. e.address) entries

-- Passes 1 to 5: what is to be written, and the counts.
unfoldable pub plan :
    List RawEntry → ConflictStrategy → Journals → Result ImportError (Staged × ImportResult)
plan raw conflict journals =
    let entries = map to_entry raw in
    validate raw
    >> (reject_duplicates [] entries
        >> (stage conflict entries (λ a. (journals a).files) no_counts
            >>= λ (staged, views, result).
                check_journals (addresses entries) views >> ok (staged, result)))

abbrev pub on_plan :
    Result ImportError (Staged × ImportResult)
    → (ℕ → Write × ℕ)
    → Journals
    → Journals × Result ImportError ImportResult
on_plan (err x) fs journals = (journals, err x)
on_plan (ok (staged, result)) fs journals = commit result staged fs journals

unfoldable pub apply_import_entries :
    List RawEntry
    → ConflictStrategy
    → (ℕ → Write × ℕ)
    → Journals
    → Journals × Result ImportError ImportResult
apply_import_entries raw conflict fs journals = on_plan (plan raw conflict journals) fs journals
