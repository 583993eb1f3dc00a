-- ===== src/Tests.antt =====
-- Runs of the definitions at concrete inputs, and the theorems at inputs that meet their hypotheses.
mod Bytecode
mod Scopes
mod Channels
mod Lexing
mod Environments
mod Operators
mod Compiling
mod Parsing
mod Checking
