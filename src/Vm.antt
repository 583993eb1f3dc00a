-- ===== src/Vm.antt =====
-- vm/vm.go, vm/frame.go and vm/fiber.go: the machine that runs the bytecode, by parts.
pub mod State
pub mod Collections
pub mod Calls
pub mod Execute
pub mod Instructions
pub mod Run
pub mod Shows
pub mod Leads
pub mod Returns
pub mod Elements
