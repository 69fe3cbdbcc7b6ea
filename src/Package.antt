-- ===== src/Package.antt =====
-- scripts/package-artifacts.py
pub mod Settings
pub mod Readme
pub mod Checks
pub mod Publish
pub mod Script
