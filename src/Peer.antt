-- ===== src/Peer.antt =====
-- lsmf/ipc_security.py: the identity of a caller. Records here are values that have passed their
-- `__post_init__`; the functions of the same names, in lower case, are the constructors.
pub mod Identity
pub mod Derive
