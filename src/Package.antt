-- ===== src/Package.antt =====
-- package/loader.py
pub mod Info
pub mod Extids
pub mod Methods
pub mod Metadata
pub mod Release
pub mod Snapshot
pub mod Progress
pub mod Load
pub mod Quiet
pub mod Defaults
pub mod Visit
