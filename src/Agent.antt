-- ===== src/Agent.antt =====
-- The package `agent`: what an agent sends, and the requests that are sent to it.
pub mod Message
pub mod Server
pub mod DataPoint
pub mod Requester
