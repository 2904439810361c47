-- ===== src/Llrp.antt =====
pub mod Error
pub mod Frame
pub mod Parameter
pub mod TagReport
pub mod Messages
mod Tests
