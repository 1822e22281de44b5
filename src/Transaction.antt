-- ===== src/Transaction.antt =====
-- glusterd2/transaction: the first transaction framework.
pub mod Context
pub mod Nodes
pub mod Locks
pub mod Run
mod Scenarios
