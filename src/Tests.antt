-- ===== src/Tests.antt =====
-- Concrete runs of the properties, on a server in memory.
pub mod Samples
mod Identities
mod Stores
mod Chats
mod Broadcasts
mod Requests
mod Reaping
mod Keys
mod Opening
mod Wires
mod Streams
mod Events
mod Relays
mod Directory
mod Serving
mod Tools
mod Clients
mod Systems
