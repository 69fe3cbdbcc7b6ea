-- ===== src/Firmware.antt =====
-- scripts/prepare-opensbi.py
pub mod Equal
pub mod Prepare
mod Tests
