-- ===== src/Authorization.antt =====
-- lsmf/system_authorization.py: who calls on the bus, and what polkit says of it.
pub mod ProcessTime
pub mod Pkcheck
pub mod AsyncPkcheck
