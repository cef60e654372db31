-- ===== src/Hub.antt =====
-- hubserv/: the entrance server.
pub mod Client
pub mod UrlData
pub mod State
pub mod Redirect
pub mod NodeList
pub mod Main
pub mod Types
pub mod Swarm
pub mod RtcApi
pub mod Router
pub mod Args
pub mod Start
pub mod ApiServer
pub mod StatusServer
pub mod Dns
