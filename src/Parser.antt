-- ===== src/Parser.antt =====
-- parser/parser.go: from tokens to the syntax tree, by recursive descent with precedences.
pub mod Tree
pub mod State
pub mod Types
pub mod Lists
pub mod Matches
pub mod Levels
pub mod Expressions
pub mod Pratt
pub mod Statements
pub mod Declarations
pub mod Program
pub mod Printer
pub mod Standing
pub mod Reading
pub mod RoundTrip
pub mod Sequence
pub mod Whole
