-- ===== src/PackageTest.antt =====
-- scripts/test-packages.py
pub mod Cpio
pub mod Guest
pub mod Commands
pub mod Boot
pub mod Audit
pub mod Hashes
mod Tests
