-- ===== src/Models.antt =====
-- internal/models: the records that the storage keeps and the handlers exchange. A Go `*string` or
-- `*int` is an `Option`; an `int` is an integer, a `time.Time` a number of nanoseconds, 0 being the
-- zero time; JSON field names are not modelled.
mod Accounts
mod Cards
mod CardTransactions
pub use Accounts.*
pub use Cards.*
pub use CardTransactions.*
