-- ===== src/Ops.antt =====
-- server/muster_api/ops.py: the RPC handlers. `Types` has the arguments and the errors, `Checks` what
-- the handlers share, and each operation has a child.
pub mod Types
pub mod Checks
pub mod Chat
pub mod Roster
pub mod Announce
pub mod Mail
pub mod Refused
pub mod Dispatch
