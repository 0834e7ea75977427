-- ===== src/Bus.antt =====
-- lsmf/system_bus_service.py: the service's side of the system bus.
pub mod Caller
pub mod Service
pub mod Router
