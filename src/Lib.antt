-- ===== src/Lib.antt =====
-- Verification of the stegos node: the agreement on macro blocks, what it stands on, and the way of
-- a transaction into a block.
--
-- A chain of stegos alternates macro blocks, which a group of validators agrees on by a pBFT
-- protocol, with micro blocks. A leader, drawn by stake, proposes a macro block; validators prevote
-- and precommit it; a node that holds precommits of more than two thirds of the slots adds them up
-- to a multi-signature and commits the block. The chain keeps its tables in maps that can be
-- rolled back. A transaction that another node sends is validated against the chain and the memory
-- pool, waits in the pool, and leaves it with the micro block that has it.
--
--  * Consensus (consensus/src/state.rs, message.rs, error.rs): `Consensus/State` has the types,
--    `Consensus/Feed` the method `feed_message` and the methods that it calls, `Consensus/Rounds`
--    the other methods (`new`, `reset`, `lock`, `next_round`, `propose`, `commit`). `Votes` weighs
--    sets of votes, `Invariant` says what holds between calls, `Handlers`, `Advance`, `Receive`,
--    `Total` and `Driver` follow it through the methods. `Agreement` has the steps of a node, and
--    is about two nodes that commit, `Committed` about the block that a node commits, `Elected`
--    about what the validators of an election commit, `Replayed` about a prevote of the node's own key that
--    another node sends.
--  * Multisignature (blockchain/src/multisignature.rs), with `Supermajority`, `Bitmap` and
--    `Roundtrip`.
--  * Election (blockchain/src/election.rs): the draw of a leader and of the validators, with
--    `Winner`, `Stakers` and `Slots`.
--  * Mvcc (blockchain/src/mvcc.rs): the map with versions. `Rollback` and `Patch` are
--    about `rollback_to_lsn` and `checkpoint` after changes, `Replay` about the soundness of the log.
--  * Escrow (blockchain/src/escrow.rs): the stakes of the validators, in such a map. `Balance` is
--    about the balances and the stakers, `Locked` about the test of a transaction, `Stake` about
--    making and taking back a stake.
--  * Awards (blockchain/src/awards.rs): the service award, with `Winners`.
--  * ViewChange (consensus/src/optimistic.rs, blockchain/src/view_changes.rs): the collector of the
--    messages of validators that ask for another leader of micro blocks. `Collected` is about what
--    it holds, `Checked` about a message that passes, `Proved` about the proof it returns, `TimedOut`
--    about the message it sends.
--  * ElectionHistory (blockchain/src/blockchain.rs): the versions of the election result within an
--    epoch, in a map of Mvcc; `Past` is about the result of an earlier offset.
--  * Merkle (blockchain/src/merkle.rs): the tree, its pruning and validation, with `Valid`, `Sound`
--    and `Pruned`; `Serial` has its serialized form, `Serial/Roundtrip` is about it.
--  * Transaction (blockchain/src/transaction.rs, output.rs): the types, and what is read of them.
--    `Transaction/Validate` (blockchain/src/validation.rs) has the validation of a coinbase, a
--    payment and a restaking, with `Unique`, `Payment` and `Restake`.
--  * Slashing (blockchain/src/slashing.rs, blockchain/src/validation.rs): the proof that a leader has
--    signed two blocks, and the transaction that shares its stake out. `Proof` is about the proofs
--    that are accepted, `Caught` about those that later blocks keep accepted, `Shared` about the shares, `Accepted` about the validation of the transaction.
--  * Mempool (node/src/mempool.rs): the memory pool. `Index` and `Indexes` are about its two indexes,
--    `Pruned` and `Pushed` about its operations, `Block` has `create_block`, with `Priority` and
--    `Filled`. `External` (node/src/validation.rs) has `validate_external_transaction`, and
--    `External/Accepted` is about what it lets into the pool.
--  * BtreeMap stands for `std::collections::BTreeMap`, Crypto for the signatures and hashes of
--    crypto/src/pbc and crypto/src/hash, which are parameters with the laws `IsSound` and
--    `IsAdditive`. Prelude has the shared types and lemmas, Tests the concrete inputs.
--
-- A method of a struct becomes a function from the state to an `Outcome` of the new state: `done`,
-- `panicked` for a failed assertion, `unwrap` or `expect`, or `out_of_fuel`. An `i64` is an integer
-- with the wrap-around written out, which the release profile has (overflow checks are off). A
-- method that logs or counts metrics is modelled without these calls.
--
-- `feed_message` calls itself: a proposal leads to a prevote of the node's own, and that to a
-- precommit. `feed_message env fuel` bounds the depth of these calls. Each such call is made in a
-- later state than the one before it, of which there are three before `Commit`, so `depth` gives 3
-- for the first state and less for the later ones, and the fuel is 3.
--
-- A node calls the protocol as node/src/lib.rs does: `vote` when `should_prevote` holds and the block
-- has the proposed hash, `propose` when `should_propose` holds, `next_round` from any state but
-- `Commit`. In the state `Precommit` that file has always saved the block before the timer fires,
-- since it votes or resets after each message; this is a premise of the step. So is that no message
-- which another node sends has the node's own key.
--
-- A Merkle tree is a node with two optional subtrees, where `Subtree` is the optional box. The loops
-- over trees and lists are recursions on them. A set of hashes that a loop keeps is the list of them,
-- with the test `contains`. The digests, the Pedersen commitments and the signatures over the curve
-- are the record `Primitives`, with the laws `IsGroup` where they are asked for; the outputs of the
-- chain are the record `Chain`, and the making of a coinbase's output is `Minting`.
--
-- Not modelled: the network, the storage, the wallet, the cryptography itself, and the other parts
-- of the chain (building a Merkle tree, the validation of blocks).
pub mod Prelude
pub mod BtreeMap
pub mod Mvcc
pub mod Crypto
pub mod Election
pub mod ViewChange
pub mod ElectionHistory
pub mod Merkle
pub mod Multisignature
pub mod Slashing
pub mod Escrow
pub mod Awards
pub mod Transaction
pub mod Mempool
pub mod Consensus
pub mod Tests
