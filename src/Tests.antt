-- ===== src/Tests.antt =====
-- Runs of the definitions, and the theorems at concrete inputs.
mod Limiter
mod Agent
mod MemoryFs
mod Disk
mod Broker
mod Schema
mod Api
mod Merge
mod Device
mod Client
mod Startup
mod Polling
mod Pipeline
mod Serial
