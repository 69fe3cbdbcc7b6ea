-- ===== src/Distro.antt =====
-- scripts/build-distro.py, scripts/package-distro.py and the audit of scripts/distro_runtime.py: disks
-- with an upstream distribution.
pub mod Config
pub mod Image
pub mod Proxy
pub mod Build
pub mod Audit
pub mod Script
pub mod Chain
pub mod Json
mod Tests
