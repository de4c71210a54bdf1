-- ===== src/Protocol.antt =====
-- internal/protocol: the messages of the agent and the broker, and their framing.
pub mod Frame
pub mod Message
