-- ===== src/Storage.antt =====
-- internal/storage/memory.go: `MemoryStorage`. Each method takes and returns the whole store; the
-- mutex makes a method one atomic step. `time.Now()` and `utils.GenerateUUID()` are arguments of the
-- methods that call them, named `now` and `fresh`. Users, customers and accounts are kept through
-- pointers into a heap, since two indexes share one object or a caller writes to it afterwards; the
-- other records are reached by one map only, and are values.
mod Memory
pub mod Users
pub mod Customers
pub mod Cards
pub mod CardTransactions
pub mod Wallets
pub mod Transactions
pub mod Balances
pub mod ThreeDs
pub mod Organizations
pub mod CardStore
pub use Memory.*
