-- ===== src/Server.antt =====
-- Server/: the services of the game server.
pub mod EndpointTable
pub mod Peers
pub mod Accounts
pub mod Sessions
pub mod Join
pub mod Leaving
pub mod Commands
pub mod Dispatch
pub mod UdpServer
