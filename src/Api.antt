-- ===== src/Api.antt =====
-- The package `api`: what the backend is asked for.
pub mod Credentials
pub mod DataLimit
pub mod Http
pub mod Backend
