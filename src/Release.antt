-- ===== src/Release.antt =====
-- The release scripts: scripts/release_common.py and scripts/build-release.py.
pub mod Matrix
pub mod Order
pub mod Status
pub mod Build
mod Tests
