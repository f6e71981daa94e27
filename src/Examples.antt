-- ===== src/Examples.antt =====
-- Runs of the server on concrete data, at which the hypotheses of the theorems hold.
pub mod World
pub mod Sorting
pub mod Lookups
pub mod Loop
pub mod Poll
pub mod Persistence
