-- ===== src/Config.antt =====
-- scripts/gen-config.py
pub mod Lookup
pub mod Kernel
pub mod Make
pub mod Buildroot
pub mod Script
mod Tests
