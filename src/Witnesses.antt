-- ===== src/Witnesses.antt =====
-- Concrete inputs at which the theorems apply: Data has the values, the others apply the theorems
-- of one part each.
pub mod Data
pub mod Routing
pub mod Cooldowns
pub mod Policies
pub mod Limits
pub mod Served
pub mod Tables
pub mod Keys
pub mod Caches
pub mod Blacklists
pub mod Discoveries
pub mod Pools
pub mod Retentions
pub mod Webhooks
pub mod Prices
pub mod Streams
pub mod Admins
pub mod Alerts
pub mod Healths
