-- ===== src/Manager/Execution.antt =====
-- The runs of runPollLoop (server/core/server_manager/server_manager.cpp) as relations, with no fuel and no index: a
-- rule for each thing that can happen to an entry of the vector, and for each wake of the loop.
pub mod Rules
pub mod Turns
pub mod Rounds
pub mod Exact
