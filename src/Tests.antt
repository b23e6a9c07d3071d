-- ===== src/Tests.antt =====
-- Concrete runs of the laws, a module for each part.
mod Wire
mod Acknowledgement
mod Sessions
mod Replay
mod Snapshots
mod Peers
mod Accounts
mod Faults
mod Authentication
mod Registry
mod Game
mod Server
