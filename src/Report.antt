-- ===== src/Report.antt =====
-- Delivery of match reports, package internal/report: its configuration and errors (Config,
-- Failure), the wire form (Wire), the verdict on an attempt (Deliver), the
-- queue and the worker of one destination (State, Worker), and all destinations (Dispatcher).
mod Tests
pub mod Failure
pub mod Config
pub mod Wire
pub mod Deliver
pub mod State
pub mod Worker
pub mod Dispatcher
