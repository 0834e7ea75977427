-- ===== src/Protocol.antt =====
-- lsmf/production_protocol.py: the wire models of the system D-Bus helper.
pub mod Json
pub mod Objects
pub mod Models
pub mod Checks
pub mod Wire
pub mod Agreement
