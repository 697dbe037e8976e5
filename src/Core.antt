-- ===== src/Core.antt =====
-- pkg/core: payloads in, results out.
pub mod StrIndex
pub mod Regexp
pub mod Input
pub mod Output
pub mod Status
pub mod Worker
pub mod Workload
pub mod Config
pub mod Dummy
