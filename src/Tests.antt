-- ===== src/Tests.antt =====
-- Concrete runs of the theorems, on inputs at which their conditions hold, and known-answer tests.
pub mod Samples
pub mod Wire
pub mod Disk
pub mod Sessions
pub mod Websockets
pub mod Upgrades
pub mod Servos
pub mod Devices
pub mod Ends
pub mod Streams
pub mod Downloads
