-- ===== src/Tests.antt =====
-- The theorems at concrete inputs.
pub mod Data
pub mod Trading
pub mod Service
pub mod Signing
pub mod Sockets
pub mod Broadcast
pub mod Exchange
pub mod Deployment
pub mod Creation
pub mod Settings
pub mod Listed
pub mod Requests
pub mod Interleaved
