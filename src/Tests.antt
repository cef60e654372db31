-- ===== src/Tests.antt =====
-- Concrete inputs for the theorems.
pub mod Connections
pub mod World
pub mod Messages
pub mod Trees
pub mod Nodes
pub mod NameServer
pub mod Services
pub mod Settings
pub mod Loading
pub mod Threads
pub mod UrlThreads
