-- ===== src/Relay.antt =====
-- internal/railwayq: the hosted relay.
pub mod Sql
pub mod Jobs
pub mod Sweeper
pub mod Gate
pub mod Server
pub mod Visitors
pub mod Ask
