-- ===== src/Correct.antt =====
-- compiler/compiler.go against vm/vm.go, for expressions of literals and operators: `Formula` has them
-- and what they mean, `Emitted` the code that the compiler makes, `Steps`, `Stack`, `Runs` and `Values`
-- what the machine does with it, and `Refines` the two together.
pub mod Formula
pub mod Emitted
pub mod Steps
pub mod Stack
pub mod Runs
pub mod Values
pub mod Refines
