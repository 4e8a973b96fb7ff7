-- ===== src/Session.antt =====
-- The samples' session: the server's handles, their manager and its answers, and the client.
pub mod Handle
pub mod Manager
pub mod Client
