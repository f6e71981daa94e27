-- ===== src/Database.antt =====
-- server/database/: the state of the server is saved in seven text files, and loaded from them.
pub mod Text
pub mod Time
pub mod Disk
pub mod Save
pub mod Records
pub mod Loading
pub mod Materialize
pub mod Load
