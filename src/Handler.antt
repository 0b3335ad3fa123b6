-- ===== src/Handler.antt =====
-- internal/handler: the state behind the HTTP handlers, and how a handler calls the storage.
mod State
pub mod Fees
pub mod Cards
pub mod Payments
pub mod Withdrawals
pub mod Users
pub mod Pages
pub mod Transfers
pub mod Forms
pub mod TwoFactor
pub mod Kyc
pub mod ThreeDs
pub mod CardOrders
pub mod CardTokens
pub mod CardPins
pub mod CardTransactions
pub mod Wallets
pub mod Organizations
pub mod Addresses
pub use State.*
unfoldable pub use State.{has_url}
