-- ===== src/Schema.antt =====
-- The package `schema`: what the backend's consumers are sent, and the converter of agent messages.
pub mod Payload
pub mod Convert
