-- ===== src/Tests.antt =====
-- Concrete inputs: fixtures, and the theorems applied to them.
pub mod Fixtures
pub mod Breaker
pub mod Inventory
pub mod Order
pub mod Room
pub mod Route
pub mod Store
pub mod Gateway
pub mod Timeout
pub mod Sale
pub mod Bucket
pub mod Checkout
pub mod Deliver
pub mod Address
pub mod Base
pub mod Seed
pub mod Server
pub mod Migrations
pub mod Boot
