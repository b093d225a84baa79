-- ===== src/Agent.antt =====
-- internal/agent: what the agent does in one round, and from round to round.
pub mod Neighbours
pub mod Probing
pub mod Round
pub mod Backoff
pub mod Running
