-- ===== src/App.antt =====
-- The package `app`: the process that runs the instrumented application.
pub mod Socketpair
pub mod Exec
