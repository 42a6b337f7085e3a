-- ===== src/Protocol.antt =====
-- internal/protocol: the parser of what clients send.
pub mod Parser
