-- ===== src/Server.antt =====
-- internal/server: the HTTP side. The children hold handlers, with the form and the path of the request
-- as arguments, and the state that they share.
pub mod Response
pub mod Routes
pub mod Router
pub mod Limiter
pub mod Login
pub mod Forms
pub mod Clients
pub mod Remotes
pub mod Sizes
pub mod Storage
pub mod Notify
pub mod Settings
pub mod Dashboard
pub mod Snapshots
pub mod Users
pub mod ClientApi
