-- ===== src/Indexer.antt =====
-- IndexerService (backend/src/indexer/indexer.service.ts): the events of the contracts are read in
-- the order of the chain and written to the tables that the services read.
pub mod Events
pub mod State
pub mod Handlers
pub mod Money
pub mod Governance
pub mod Dispatch
pub mod CatchUp
pub mod Poll
pub mod Lost
pub mod Keeps
mod Tests
