-- ===== src/Manager.antt =====
-- The server manager (server/core/server_manager/server_manager.cpp): its poll loop, and what it keeps.
pub mod Service
pub mod Rounds
pub mod Loop
pub mod Polled
pub mod Reached
pub mod Ending
pub mod Execution
pub mod Losses
pub mod Restart
