-- ===== src/Tests.antt =====
-- Runs of the theorems at concrete inputs, from src/urf-arbitrator.c up to src/urf-daemon.c.
pub mod Fixtures
mod Arbitration
mod Flight
mod Library
mod Calls
mod Running
mod Following
pub mod Profiles
mod Sources
pub mod Starting
mod Service
