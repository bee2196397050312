-- ===== src/Http.antt =====
-- The HTTP server: what it answers, and to whom.
pub mod Json
pub mod Bodies
pub mod Objects
pub mod Routes
pub mod Auth
pub mod Regions
pub mod Responses
pub mod Session
pub mod Listener
pub mod Connection
pub mod Login
