-- ===== src/Instances.antt =====
-- The instance manager: emulator and head unit pairs, their ports, records, processes and RPCs
-- (instance_manager/src).
pub mod Ports
pub mod Names
pub mod Store
pub mod Video
pub mod Machine
pub mod Lifecycle
pub mod Background
pub mod Logs
pub mod Service
pub mod Dashboard
mod Tests
