-- ===== src/Supervisor.antt =====
-- supervisor/src: the events and bitmaps that the Android app fetches, and what produces events.
pub mod Events
pub mod Bitmaps
pub mod Bridge
pub mod Watchdog
pub mod Json
pub mod Tailer
pub mod Injector
pub mod Tmux
mod Tests
