-- ===== src/Tests.antt =====
-- Runs of the code at concrete states.
mod Data
mod Books
mod Pools
mod Storages
mod Trackers
mod Syncs
mod Validators
mod Leaders
mod Bans
mod Indexers
mod Bundles
mod Rounded
mod Funds
mod Rounds
