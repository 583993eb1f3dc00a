-- ===== src/Compiler.antt =====
-- compiler/compiler.go: the compiler from the syntax tree to bytecode. `State` has its state and the
-- functions that emit, `Scopes` functions and blocks, `Control`, `ForIn` and `Match` the nodes that
-- jump, `Names` and `Functions` the nodes that name, `Compile` the dispatch on nodes, and `Program` the
-- whole program.
pub mod State
pub mod Scopes
pub mod Control
pub mod ForIn
pub mod Match
pub mod Names
pub mod Functions
pub mod Compile
pub mod Program
