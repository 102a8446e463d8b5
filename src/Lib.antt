-- ===== src/Lib.antt =====
-- midnight-rs: the SDK for the Midnight chain. This library models parts of it and proves what
-- makes them correct.
--
-- The program. A wallet follows the chain by replaying the indexer's event streams
-- (crates/midnight-wallet/src/replay.rs); it reserves the inputs of the transactions that it
-- builds until the chain confirms them (crates/midnight-wallet/src/per_ledger/pending.rs). A
-- contract call reads and writes a journal of private states, one snapshot per transaction
-- (crates/midnight-private-state/src/fs.rs), and returns the surplus of its shielded coins as
-- change (crates/midnight-contract/src/change.rs). The contract's code arrives as an S-expression
-- (crates/compact/analyzed-ir/src/sexp.rs); an interpreter runs the circuits of its analyzed form
-- against the ledger's VM and records the transcript that the prover binds
-- (crates/compact/interpreter/src/lib.rs), over values whose flat encoding the runtime lays out
-- (crates/compact/runtime/src).
--
-- The files.
-- - Base: Boolean tests, lists, integers and results that all parts share.
-- - Wallet/Types: ledger generations, tracked UTXOs, errors
--   (crates/midnight-types/src/ledger_version.rs, sync.rs, error.rs,
--   crates/midnight-indexer-client/src/error.rs).
-- - Wallet/Replay/Policy: the constants and tests of the replay loops. Wallet/Replay/Ledger:
--   `replay_ledger_events`, with its loop's variables as the record `State`, and each piece of
--   the loop a function into `Flow`, which tells how the piece ends. Wallet/Replay/Utxo:
--   `parse_utxo` and `apply_unshielded_tx`. Wallet/Replay/Unshielded: `replay_unshielded_events`.
-- - Wallet/Pending: `PendingReservations`; Wallet/Pending/Lifetime: sequences of its operations;
--   Wallet/Pending/Stored: its form in `pending.json`.
-- - PrivateState/Graph: `find_leaf`, `topo_sort`, `walk_children`. PrivateState/Store: the
--   operations of `FsPrivateStateProvider` on one address's directory. PrivateState/Import:
--   `apply_import_entries`, over the directories of several addresses.
-- - Ir/Datum, Ir/Atoms, Ir/Sexp: the reader of the Compact compiler's S-expressions
--   (crates/compact/analyzed-ir/src/sexp.rs); Ir/Sexp/Write: the written form of a datum, after
--   Chez Scheme's `write`.
-- - Ir/Model, Ir/OpName: the types of the analyzed IR, `uint_byte_width`, the instruction names
--   and `Ident::name` (crates/compact/analyzed-ir/src/model.rs). Ir/Parse: `ty` and the parsers
--   that it uses (crates/compact/analyzed-ir/src/parse.rs), where an index out of range is the
--   answer `panic`; Ir/Parse/Form: the form in which the compiler prints a type.
-- - Ir/Expr: the expressions, operands, instructions and declarations of the analyzed IR
--   (crates/compact/analyzed-ir/src/model.rs); a list inside a node is a type of its own.
-- - Runtime/Value, Runtime/Layout, Runtime/Encode: values, the atoms that a type takes,
--   `slice_atoms`, `encode_typed` and `default_value` (crates/compact/runtime/src/value.rs,
--   conversions.rs, compact_types.rs).
-- - Interpreter/Program, Infer, Numbers, Elements: the declarations, type inference, arithmetic
--   and casts, and access to elements and fields. Interpreter/Monad: `ExecContext` as the record
--   `Context`, and the parts of a run, each a function from a context to an outcome and a
--   context. Interpreter/Ops: `exec_ledger_query` and the instructions. Interpreter/Calls: calls,
--   loops and lists of expressions. Interpreter/Eval: `step` is the body of `eval_expr`, with its
--   recursive calls as a parameter. Interpreter/Run: `execute`, `encode_circuit_input`.
--   Interpreter/Closed/Parts: the expressions that a step evaluates. Interpreter/Closed: what a
--   relation on runs asks of the parts of a run, and the lemmas that carry it from the parts to
--   an evaluation; Fuel, Transcript, Replay and Scope: such relations.
-- - Contract/Maintenance: the checks of a contract's maintenance committee, of its signatures and
--   of an update's steps (crates/midnight-contract/src/maintenance.rs).
-- - Contract/Change: `total_by_key`, `change_due`, `refuse_shortfall` and the totals of
--   `pay_offer`.
--
-- Bounds and fuel. An `i64` is an integer with its saturation or wrap-around written out; a
-- `u128` total is checked against 2 ^ 128. The walk over a journal takes as fuel one more than
-- the starts and the snapshots, which is enough since a hash enters the queue once per start and
-- once per snapshot that depends on a listed hash. The reader of S-expressions gets two calls for
-- each byte of its input, and two more. An evaluation takes as fuel a depth of nested
-- expressions, those of the bodies of called circuits included (`Fits` of Interpreter/Fuel);
-- loops take none. Where the fuel does not suffice the outcome is `out_of_fuel`, which is not the
-- program's; a circuit that calls itself without end has it on any fuel. The replay loops recur
-- on the indexer's answers, and the frames of each.
--
-- Parameters. The encoding of the ledger crates, the foreign fields and the curve points are the
-- record `Fab`; the VM, the built-in functions and the witness provider of a run are the record
-- `Setting`. A contract's state, a log item and a native field element are numbers that stand for
-- them. An error of the interpreter keeps its kind, and its text only for an undefined variable
-- and a failed assertion. Whether a committee's key verifies a signature is a function of the
-- two. The indexer is a list of answers, each a function of the id that the request resumes from;
-- hex and the ledger's tagged serialization are functions with the round trip as a hypothesis
-- where one is needed; the file system chooses where a new file is listed and which writes and
-- removals of snapshots fail, and which files a forget leaves that stops part-way; the write of the
-- address marker succeeds.
--
-- Not modelled: proving, transaction construction and submission, which are calls of the ledger
-- crates and the node; locks, files and sockets; the contract compiler's code generation; the
-- parsers of expressions and program elements; the built-in functions.
pub mod Base
pub mod Wallet
pub mod PrivateState
pub mod Contract
pub mod Ir
pub mod Runtime
pub mod Interpreter
