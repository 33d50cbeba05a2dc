-- ===== src/Store.antt =====
-- server/muster_api/store.py: what the server keeps in Valkey, an operation of the file in each child.
pub mod Keys
pub mod Envelope
pub mod Agents
pub mod Presence
pub mod Rate
pub mod Inbox
pub mod Deliver
