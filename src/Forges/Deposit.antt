-- ===== src/Forges/Deposit.antt =====
-- package/deposit/loader.py
pub mod Branches
pub mod Unique
pub mod Client
pub mod Packages
pub mod Visit
pub mod Report
