-- ===== src/Sysctl.antt =====
-- lsmf/sysctl_manifest.py and lsmf/sysctl_transaction.py: backup-first apply and exact rollback.
pub mod Manifest
pub mod World
pub mod Files
pub mod Values
pub mod Backups
pub mod Outcomes
pub mod Restore
pub mod Capture
pub mod Apply
pub mod Rollback
pub mod Proofs
