-- ===== src/Engine.antt =====
-- glusterd2/transactionv2: transactions that every node runs on its own, with the store between
-- them. Manager keeps what the store knows of them, Executor runs and rolls back the steps of one
-- transaction on one node.
pub mod Manager
pub mod Executor
pub mod Txn
mod Fixtures
mod Scenarios
