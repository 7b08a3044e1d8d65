-- ===== src/Instances/Lifecycle/Frame.antt =====
-- No method of the lifecycle touches a port slot, adds or removes a record, or changes the ports,
-- name, mode or device of one: the methods leave the claims alone, however they end.
mod Loops
pub mod Methods
mod Create
pub use Create.{create-Keeps}
pub use Methods.*
