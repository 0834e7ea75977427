-- ===== src/Privileged.antt =====
-- lsmf/privileged_protocol.py and lsmf/privileged_helper.py.
pub mod Models
pub mod Helper
pub mod Wire
