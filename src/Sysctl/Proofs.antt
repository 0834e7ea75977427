-- ===== src/Sysctl/Proofs.antt =====
-- What the transactions guarantee.
pub mod Reads
pub mod Exact
pub mod Frame
pub mod Store
pub mod Throws
pub mod Applied
pub mod ApplyReport
pub mod Confined
pub mod Blocked
pub mod RolledBack
