-- ===== src/OrderPool.antt =====
-- angstrom-main/crates/order-pool/src: the store of verified orders. The metrics that each operation
-- also reports are not part of the state here.
pub mod Size
pub mod Pending
pub mod Standard
pub mod Composable
pub mod Limit
pub mod Searcher
pub mod Finalization
pub mod Storage
pub mod Tracker
pub mod Validator
pub mod Subscribers
pub mod Indexer
