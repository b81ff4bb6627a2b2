-- ===== src/Acme/Server.antt =====
-- The server as a whole: its endpoints, and what holds in every state that requests lead to.
pub mod Endpoints
pub mod Frame
pub mod Replay
