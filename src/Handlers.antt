-- ===== src/Handlers.antt =====
-- backend/src/handlers: what an HTTP request of a user does.
pub mod Rules
pub mod Groups
pub mod Channels
pub mod Requests
