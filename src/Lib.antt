-- ===== src/Lib.antt =====
-- Angstrom's node: the order pools with their indexer, the synchronization of the modules on new
-- blocks, the choice of a leader, the rounds of the consensus, the reputation of the peers, the
-- accounts of the users during validation, the books of a bundle's assets, and the arithmetic of
-- prices, fees and debts.
--
-- The order pools (angstrom-main/crates/order-pool/src). OrderStorage (order_storage.rs) holds all
-- verified orders: the limit orders (limit/mod.rs, over limit/standard.rs, limit/parked.rs,
-- limit/composable.rs and limit/pending.rs), the top-of-block orders (searcher/mod.rs and
-- searcher/pending.rs), and those that a block has filled and a reorg may bring back
-- (finalization_pool.rs). OrderTracker (order_tracker.rs) knows which hashes are live, cancelled,
-- seen as invalid or under validation, and calls the storage. The files are OrderPool/Size, Pending,
-- Standard (with the parked orders), Composable, Limit, Searcher, Finalization, Storage and Tracker,
-- each with its functions under the names of the source; Pending stands for both files pending.rs,
-- over the type of the orders. Orders has the types of the orders as the pools read them
-- (angstrom-main/crates/types/src/orders/orderpool/mod.rs and sol_bindings/ext/grouped_orders.rs).
-- Storage/Steps is the storage as a step relation over all of its calls that change it. The state
-- machine of validator.rs, which holds the orders under validation and brings them over to a new
-- block, is OrderPool/Validator; order_subscribers.rs, which tells the results of validations and
-- the updates of orders, is OrderPool/Subscribers. OrderPool/Indexer is order_indexer.rs, which
-- composes them: its handlers of orders, cancellations, account changes, fills and reorgs, and in
-- Indexer/Blocks those of the validator's results and of new blocks, and the loop of poll_next.
-- Indexer/Served has all of its calls that change the state as a step relation.
--
-- Block synchronization (angstrom-main/crates/types/src/block_sync.rs) is BlockSync: each module
-- signs off on a proposed block or reorg, and the last sign-off moves the node on.
--
-- The choice of a leader (angstrom-main/crates/consensus/src/leader_selection.rs) is Leader, with
-- the i64 arithmetic in Leader/Words.
--
-- The rounds of the consensus (angstrom-main/crates/consensus/src/rounds, with the messages of
-- types/src/consensus) are Consensus, for the messages and when they are valid, Consensus/Rounds,
-- for what the states share, and Consensus/Rounds/States, for the five states, their transitions and
-- the machine. Consensus/Rounds/Steps is the machine as a step relation.
--
-- The reputation of the peers (angstrom-main/crates/angstrom-net/src/peers/reputation.rs and
-- manager.rs) is Peers.
--
-- The accounts of the validation (angstrom-main/crates/validation/src/order/state/account/user.rs
-- and mod.rs) are Accounts, with the live states in Accounts/Live and the account processor's
-- verify_order in Accounts/Verify: what the users' pending orders spend, which of them the balances
-- no longer pay for, and which orders share a nonce. The priorities are those of
-- angstrom-main/crates/types/src/sol_bindings/ext/mod.rs.
--
-- The books of a bundle's assets (angstrom-main/crates/types/src/contract_payloads/asset) are
-- Assets: one token of one stage (state.rs), Assets/Stage with the stage's tokens (state.rs),
-- Assets/Array with the array of the contract (mod.rs), and Assets/Builder with the four stages
-- (builder.rs).
--
-- The arithmetic is Prices: Ray (angstrom-main/crates/types/src/sol_bindings/ray.rs), Prices/Fees
-- with the fills at a price (types/src/matching/math/mod.rs beside it), Prices/Debts
-- (types/src/matching/debt.rs) and Prices/Tokens (types/src/matching/tokens.rs and
-- matching/uniswap/mod.rs).
--
-- How the code is modelled. A hash, an address, a pool id, a peer id, a waker and an instant are
-- numbers. A HashMap or a BTreeMap is an association list (Base/Maps); what depends on the order of
-- an iteration follows the list. A method that changes `self` gives the new state with its result. A
-- panic (unwrap, expect, assert!) is a value of the type Outcome; a panic poisons the locks, so
-- nothing follows it. Calls that take a lock follow one another. usize and u64 wrap at 2^64 and i64
-- at 2^63, as compiled for release, u128 at 2^128 and U256 at 2^256; the one sum on i32 saturates. A
-- sort is an insertion sort. A division by zero, and a U256 that its value does not fit in, end the
-- run. The clock is an argument. No definition runs on fuel: the loops go over lists, and the rounds
-- of the choice of a leader are counted by a number. A future of the validator stands for the order
-- that it validates, and which one is done is an argument of a poll. Types that are not part of the
-- repository (reth's ban list and reason of a disconnect) are parameters, and so is the validator
-- that eoa_state_changes hands orders to. The division of malachite with a rounding mode is the
-- parameter DivRound of Prices, with what its documentation says of it for the modes used here, and
-- the state of the chain is the parameter StateFetchUtils of Accounts/Live. Signatures over
-- serialized payloads are the parameter Signing of Consensus; serializing and signing a message do
-- not fail. What the futures of a round give is an argument of a poll, and so is what building the
-- bundle gives (AngstromBundle::from_proposal, which a poll runs with the snapshot of the pools):
-- whether there is a bundle, or a panic. Whether the signature of a cancellation is that of its user
-- is an argument.
--
-- Not modelled: logging and metrics; the digest and the signature of an order; the consensus
-- manager, the wait before a pre-proposal and the comparison of solutions in the finalization, and
-- the bundle (contract_payloads/angstrom) that from_proposal builds; the matching engine, its
-- solvers and the swaps on a Uniswap pool, Debt::calc_proportion and the conversions of Ray from and
-- to f64; of the validation, all but the accounts; the network's sessions, the RPC interface and the
-- contracts.
pub mod Base
pub mod Orders
pub mod OrderPool
pub mod BlockSync
pub mod Leader
pub mod Peers
pub mod Assets
pub mod Prices
pub mod Accounts
pub mod Consensus
mod Tests
