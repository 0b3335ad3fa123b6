-- ===== src/Redis.antt =====
-- internal/storage/redis.go: `RedisStorage`. The Redis client and `encoding/json` are not the program's
-- own code: they are interfaces, with what their documentation says of the calls. A method that the
-- caller's pointer is written through returns the object as it leaves it; after an error the callers
-- drop the object. `time.Now()` and `utils.GenerateUUID()` are the arguments `now` and `fresh`.
mod Client
pub mod Laws
pub mod Users
pub mod Customers
pub mod Cards
pub mod CardTransactions
pub mod Money
pub mod ThreeDs
pub mod Organizations
pub use Client.*
