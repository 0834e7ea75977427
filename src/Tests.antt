-- ===== src/Tests.antt =====
-- The theorems' examples, at concrete inputs.
mod Transactions
mod Peers
mod Registries
mod Helpers
mod Protocols
mod Dispatchers
mod Authorizers
mod Services
mod Logs
mod Settings
mod Manifests
mod Workers
