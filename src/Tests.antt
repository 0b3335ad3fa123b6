-- ===== src/Tests.antt =====
-- The theorems at concrete inputs, with amounts counted in ten-thousandths.
mod Data
mod Storage
mod Cards
mod Money
mod Kyc
mod Orders
mod Pins
mod Simulation
mod RedisStore
mod Accounts
mod Redis
mod Webhook
mod Auth
mod Pages
mod Transfers
