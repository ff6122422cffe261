-- ===== src/Tests.antt =====
-- Examples: the theorems at concrete clients, databases and worlds.
mod Lab
mod Memory
mod Crypto
mod Start
mod Fixtures
mod Modes
mod Lifecycle
mod Store
mod Server
mod Api
mod Handlers
mod Remotes
mod Snapshots
mod Uploader
mod RsyncClient
mod Router
mod Page
