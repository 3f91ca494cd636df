-- ===== src/Core.antt =====
-- terminal/src/core: the small objects that the terminal's threads share.
pub mod Commands
pub mod Hub
pub mod Registry
pub mod Tracking
