-- ===== src/Stores.antt =====
-- src/mailflow/stores: the state stores in memory, in SQLite and in PostgreSQL, as fillings of the ports,
-- and the retry of a connection.
pub mod Bookmark
pub mod MemoryCursor
pub mod Claim
pub mod MemoryDedupe
pub mod SqliteDedupe
pub mod DeadLetters
pub mod SqliteCursor
pub mod SqliteDeadLetters
pub mod MemoryBlobs
pub mod Retry
pub mod Postgres
