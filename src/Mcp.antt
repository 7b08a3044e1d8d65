-- ===== src/Mcp.antt =====
-- mcp/src: the server that agents submit bitmaps to and display them with.
pub mod Poll
pub mod Handlers
pub mod Calibrate
pub mod Server
pub mod Wiring
mod Tests
