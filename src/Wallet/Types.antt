-- ===== src/Wallet/Types.antt =====
-- The values that the wallet's parts share: ledger generations (midnight-types/src/ledger_version.rs),
-- tracked UTXOs (midnight-types/src/sync.rs), and the errors (midnight-types/src/error.rs,
-- midnight-indexer-client/src/error.rs). A 32-byte hash is the number that its bytes spell; the
-- message texts of errors are left out.
use Prim.Native.String.{String}
use text.Mathlib.Text.{◌==◌ as str_eq}
use midnight_rs.Base.{
  ℕ, ℤ, Bool, true, false, ◌&&◌, ◌||◌, not, Option, none, some, List, Result, ok, err, leb, ltb,
  ◌==◌, if◌then◌else◌, any,
}

pub data LedgerVersion : Type 0 where
  v8 v9 : LedgerVersion

-- The derived order of the generations.
abbrev pub ltb_version : LedgerVersion → LedgerVersion → Bool
ltb_version LedgerVersion.v8 LedgerVersion.v9 = true
ltb_version _ _ = false

-- `reqwest::Error`, by what the client asks of it.
pub record HttpError : Type 0 where
  pub is_request : Bool
  pub is_timeout : Bool
  pub status : Option ℕ

pub data IndexerError : Type 0 where
  config : IndexerError
  http : HttpError → IndexerError
  graphql : IndexerError
  transport : IndexerError
  protocol : IndexerError
  deserialization : IndexerError
  missing_data : IndexerError

abbrev is_server_error : Option ℕ → Bool
is_server_error none = false
is_server_error (some s) = leb 500 s && ltb s 600

unfoldable pub is_retryable : IndexerError → Bool
is_retryable IndexerError.transport = true
is_retryable (IndexerError.http e) = (e.is_request && not e.is_timeout) || is_server_error e.status
is_retryable _ = false

-- The name of an event stream in logs and errors.
pub data StreamKind : Type 0 where
  zswap dust unshielded : StreamKind

pub data UtxoField : Type 0 where
  token_type value intent_hash output_index : UtxoField

pub data SyncFailure : Type 0 where
  decode_event receiver_dropped : StreamKind → SyncFailure

pub data WalletError : Type 0 where
  sync : SyncFailure → WalletError
  event_order : StreamKind → ℤ → ℤ → WalletError
  malformed_utxo : UtxoField → Option ℤ → WalletError
  indexer : Bool → IndexerError → WalletError
  unknown_ledger : WalletError
  storage : WalletError
  other : WalletError

pub record SpentUtxoKey : Type 0 where
  pub intent_hash : ℕ
  pub output_index : ℕ

abbrev pub eq_key : SpentUtxoKey → SpentUtxoKey → Bool
eq_key a b = a.intent_hash == b.intent_hash && a.output_index == b.output_index

-- `keys.contains(&k)`
abbrev pub contains_key : List SpentUtxoKey → SpentUtxoKey → Bool
contains_key keys k = any (λ j. eq_key j k) keys

pub record TrackedUtxo : Type 0 where
  pub owner : String
  pub token_type : ℕ
  pub value : ℕ
  pub intent_hash : ℕ
  pub output_index : ℕ
  pub ctime : Option ℤ
  pub registered_for_dust_generation : Option Bool

-- `NIGHT`, the zero id
abbrev pub night : ℕ
night = 0

abbrev pub spent_key : TrackedUtxo → SpentUtxoKey
spent_key u = record { intent_hash = u.intent_hash; output_index = u.output_index }

unfoldable pub is_night : TrackedUtxo → Bool
is_night u = u.token_type == night

unfoldable pub is_registered_for_dust : TrackedUtxo → Bool
is_registered_for_dust u = elim u.registered_for_dust_generation [ none ↦ false | some b ↦ b ]

-- What the generation of encoded ledger data is read from: the hex decoder, the reader of a value's
-- leading tag, and the tag of the value's type in each generation.
pub record Codec : Type 0 where
  pub decode_hex : List ℕ → Option (List ℕ)
  pub peek_tag : List ℕ → Option String
  pub tag8 : String
  pub tag9 : String

-- `of_tagged`
unfoldable pub of_tagged : Codec → List ℕ → Result WalletError LedgerVersion
of_tagged c bytes = elim (c.peek_tag bytes) [
  | none ↦ err WalletError.unknown_ledger
  | some tag ↦
      if str_eq tag c.tag8
      then ok LedgerVersion.v8
      else if str_eq tag c.tag9
      then ok LedgerVersion.v9
      else err WalletError.unknown_ledger
]
