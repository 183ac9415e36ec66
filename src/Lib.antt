-- ===== src/Lib.antt =====
-- Verification of the Utreexo bridge sidecar: a program beside Bitcoin Core that keeps a Utreexo
-- forest, a Merkle forest over the unspent outputs, and serves proofs of it.
--
-- src/forest.cpp keeps the forest: an arena of nodes under 32-bit ids, an index of its leaves, the
-- array of roots and the number of leaves. `Add` and `DeleteId` change it block by block.
-- src/transaction_cache.cpp keeps prepared proofs of unconfirmed transactions between blocks.
-- src/position.cpp numbers the nodes of a forest.
-- src/sync.cpp moves the forest along the chain and back.
-- src/leaf.cpp makes the leaves of outputs.
-- src/bridge_wire.cpp and src/transaction_wire.cpp write and read messages.
-- src/transaction_relay.cpp asks Core for its unconfirmed transactions, has the forest prove their
-- confirmed inputs, and publishes the prepared proofs in the cache; src/core_rpc.cpp reads Core's
-- amounts.
--
-- - Common and its children: the names that all modules share, tests on numbers, lists over the
--   native numbers, bits.
-- - Result: `Result<T>` of include/utreexo/result.h, and C++ exceptions.
-- - Arena: `NodeArena` as an interface (`ArenaOps` with the laws `IsLawful`), and Arena.Memory, the
--   arena of a forest in RAM: one function from ids to records in place of the chunks.
-- - Forest: `PackedForest::Impl` over any arena and any leaf index: `add` is `Add`, `delete_id` is
--   `DeleteId`, `recompute` is `Recompute`. Forest.Tree, Forest.Represents and Forest.Stands say
--   what forest of abstract trees the records stand for; Forest.Shapes specifies `Add` as adding
--   one to a binary number whose digits are trees.
-- - ProofCache: `TransactionProofCache` of src/transaction_cache.cpp: `publish` is `Publish`,
--   `expire`, `clear` and `erase_entry` are the functions of its `Impl`, `find` and `find_matching`
--   are `Find` and `FindMatching`; what they read from the clock is an argument. A call that holds the
--   mutex is one step; ProofCache.Steps has runs of steps at any times. Its loops have the number of
--   entries as fuel: a round erases one.
-- - Leaf: src/leaf.cpp: `serialize_leaf` is what `LeafHash` hashes, `compact_leaf` is `CompactLeaf`,
--   `last_script_push` is `LastScriptPush` with the script's length as fuel (each round reads a
--   byte), `reconstruct_script_pubkey` is `ReconstructScriptPubkey`.
-- - Sync: src/sync.cpp: `process_next` is `ProcessNext`, `reconcile_current_point` is
--   `ReconcileCurrentPoint`, `rollback_to` is `RollbackTo`, over any forest, block source and
--   parser. Its loops are recursions on the chain, which gets shorter each round.
-- - Position: src/position.cpp: `tree_rows`, `detect_row`, `left_child`, `right_child` and `parent`.
--   The loop of `DetectRow` has fuel 65, for a marker of 64 bits.
-- - Transaction: src/transaction_wire.cpp. Transaction.Inventory: `parse_groups` and
--   `serialize_groups` are the templates `ParseGroups` and `SerializeGroups`, with their parameter as an
--   argument. Transaction.Scan: `scan_transaction` and `parse_transaction` are `ScanTransaction` and
--   `Transaction::Parse`; Transaction.Scan.Encoding has transactions written out part by part.
--   Transaction.Positions: `WirePosition` and `NativeProofPositions`; a row has the number of its
--   pending positions as fuel. Below it, a position is a row and a place, and `Proved` says which
--   siblings are needed. Transaction.Unique has lists of distinct positions. Transaction.Prepared: `create`, `measure` and `serialize` are the members
--   of `PreparedTransactionProof`. Transaction.Decode: `parse_utreexo_transaction` is
--   `ParseUtreexoTransaction`.
-- - Hex: `FromBitcoinHex` and `ToBitcoinHex` of src/hash.cpp, and `DecodeHex` of
--   src/transaction_relay.cpp.
-- - Amount: `ParseBitcoinAmount` of src/core_rpc.cpp.
-- - Relay: src/transaction_relay.cpp. Relay.Run has the calls that read and change a state; `Parts` of
--   Relay.Services is what the relay uses of Core, the forest, the cache and the JSON library.
--   `prepare`, `recovery_candidates` and `poll` are the members of `TransactionRelay`. The loop over
--   the inventory has the length of the text as fuel, of which a round reads 66 characters.
--   Relay.Calls has runs of remote calls, and coins; Relay.Spent and Relay.Inputs are about the loop of
--   `Prepare` over the inputs, Relay.Verified about the proof, Relay.Current about what comes right
--   before a publication.
-- - Udata: `SerializeUData` of src/bridge_wire.cpp as `serialize_udata`.
-- - Wire: `AppendLE`, `AppendCompactSize`, `CompactSizeBytes` and the cursor `Reader`.
--
-- Bounds and fuel. Node ids are below `no_node` = 2 ^ 32 - 1, and the live count wraps at 2 ^ 64.
-- The loop of `Add` has fuel 64: the number of leaves has 64 bits. `Recompute` has fuel 64: a tree
-- in row r is no higher than r, and a row that holds a tree is below 63 since the number of leaves
-- is below 2 ^ 63. `std::ranges::find` runs over the 64 rows.
--
-- `ParentHash` is a parameter; nothing is assumed of it. The leaf index is a parameter too: no
-- theorem here says what it finds.
--
-- `PreparedTransactionProof` is a parameter of the cache, so that the two parts stand alone, with its
-- transaction id, its size, its serialization, and the hash functions.
--
-- The forest is a parameter of the synchronisation, with the promises `IsFaithful`: a block is taken
-- or it is not, and a rollback forgets just the last block or nothing.
--
-- The cache is a parameter of the relay, with the promise `IsForgetful`: after `Invalidate` it finds no
-- proof. Where the candidates of the recovery are stated, it gives the same answers throughout, `IsStable`.
--
-- Core and the forest are parameters of `prepare`; where it is stated what `Prepare` publishes, the promise
-- is `IsCore`: a reply of `gettxout` that names a block as the best one tells of the coins at that
-- block, and a remote call leaves the forest alone.
--
-- Not modelled: the prefetching thread and the metrics of the synchronisation; the jobs of the
-- cache that wait for a proof to be prepared again; the arena mapped to files with its transactions,
-- the write-ahead log and the other files of the online forest; the positions of roots and of
-- proofs; the changes of the forest by a whole block; sockets, threads, Core's remote calls and blocks, the
-- command line, logging, the JSON library.
pub mod Common
pub mod Result
pub mod Relay
pub mod Wire
pub mod Amount
pub mod Arena
pub mod Forest
pub mod Hex
pub mod ProofCache
pub mod Leaf
pub mod Sync
pub mod Position
pub mod Tests
pub mod Udata
pub mod Transaction
