-- ===== src/Pc.antt =====
-- internal/server and internal/remote: the HTTP server of the PC, and the worker that takes the relay's
-- jobs.
pub mod Api
pub mod Infer
pub mod Jobs
pub mod Tools
pub mod Worker
pub mod Admin
mod Tests
