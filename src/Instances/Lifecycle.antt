-- ===== src/Instances/Lifecycle.antt =====
-- instance_manager/src/emulator_lifecycle.py: `EmulatorLifecycle`, one module for each group of
-- methods. What a call of the world answers is the `Env`'s choice (Instances/Machine.antt).
pub mod Paths
pub mod Wait
pub mod Gpu
pub mod Destroy
pub mod Create
pub mod Dhu
pub mod Adb
pub mod Frame
mod Tests
