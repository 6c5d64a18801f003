-- ===== src/Tests.antt =====
-- Examples: the theorems at concrete messages, databases and runs.
pub mod Parsing
pub mod Indexing
pub mod Receiving
pub mod Running
pub mod Accounts
pub mod Racing
pub mod Searching
pub mod Retaining
pub mod Connecting
pub mod Settings
