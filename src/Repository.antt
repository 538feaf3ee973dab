-- ===== src/Repository.antt =====
-- The tables and their queries: src/crypto_mas/domain/repositories. A session is taken to see its own
-- writes: every order and trade row is flushed, which flushes the position before it. The order
-- of rows that a query does not order is that of insertion.
pub mod Positions
pub mod Accounts
pub mod Records
