-- ===== src/Audit.antt =====
-- lsmf/protected_audit.py: the protected log of the service and of the helper.
pub mod Sink
