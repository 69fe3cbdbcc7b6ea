-- ===== src/Rootfs.antt =====
-- scripts/ensure-rootfs.py
pub mod Reuse
pub mod Cache
pub mod Record
mod Tests
