-- ===== src/Message/Limiter.antt =====
-- `DataLimiter` of message/limiter.go, its state functions and its loop. Messages, configurations
-- and timer expiries come as a list of events, in the order in which `select` takes them.
pub mod State
pub mod Run
pub mod Period
pub mod Budget
pub mod Admission
pub mod Unlimited
pub mod Periods
pub mod Order
pub mod Shutdown
pub mod Recovery
pub mod Overflow
