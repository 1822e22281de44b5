-- ===== src/Sunrpc.antt =====
-- What travels by Sun RPC: the records of pkg/sunrpc and the dictionaries of
-- glusterd2/servers/sunrpc/dict.
pub mod Dict
pub mod Record
mod Scenarios
