-- ===== src/Pools.antt =====
-- PoolsService (backend/src/pools/pools.service.ts).
pub mod Entities
pub mod Address
pub mod Store
pub mod Season
pub mod Lifecycle
pub mod Winner
pub mod Membership
pub mod NextSeason
pub mod Streams
pub mod Cooldown
pub mod SelectWinner
pub mod Consistent
pub mod Sample
mod Tests
mod MemberTests
mod SelectTests
