-- ===== src/Lib.antt =====
-- A verification library for Sydney: a compiled language with a lexer, a parser, a type
-- checker, a bytecode compiler and a stack machine that runs cooperative fibers, with channels
-- between them. A source file goes through lexer, parser and typechecker to compiler, which
-- emits the bytecode of code; vm runs the bytecode, one fiber at a time.
--
-- Every definition is a translation of the code named beside it. A pointer receiver that a
-- function changes is an argument and a part of the result; an error that a function returns
-- is `err` of Base.Outcome.Result, a Go panic is `panic`, and a value that may be missing is
-- an Option. A Go map with string keys is the association list of Base.Dict, where an
-- insertion replaces the entry it finds. A byte is a natural number below 256 where a theorem
-- says so.
--
-- The files:
-- Base (Base/Tests, Base/Lists, Base/Dict, Base/Int, Base/Outcome): tests on numbers, lists,
--   maps, signed numbers and results that the other files share.
-- Code, Code/Encode, Code/Listing: code/code.go. The opcodes and the table `definitions` are
--   Code; Make, Lookup, ReadOperands, ReadUint8 and ReadUint16 are `make`, `lookup`,
--   `read_operands`, `read_uint8` and `read_uint16` of Code/Encode; Instructions.String and
--   fmtInstruction are `listing` and `fmt_instruction`. A line of a listing is kept as its
--   parts, not as text. Proofs: Code/RoundTrip, Code/Listing/Laws.
-- SymbolTable: compiler/symbol_table.go, every function of it. DefineMutable and
--   DefineImmutable are `define`, NewEnclosedSymbolTable and NewBlockScopedSymbolTable are
--   `new_enclosed` and `new_block_scoped`, and the others keep their names. A table with its
--   Outer tables is the list of tables from the innermost out, so that what a function writes
--   to an outer table is seen there. Proofs: SymbolTable/Wellformed, Preserves, Resolve,
--   Fresh.
-- Channel, Scheduler: vm/channel.go, vm/scheduler.go, vm/fiber.go and the loop VM.Run of
--   vm/vm.go. `ring_put` and `ring_take` are the ring buffer's part of send and receive. A
--   fiber is its pointer, a number, and the machine's heap maps pointers to fibers, as several
--   queues hold the same pointer. Proofs: Channel/Fifo, Scheduler/Carries, Send, Receive, Run.
-- Token, Lexer, Lexer/Keywords, Lexer/Scan: token/token.go, lexer/lexer.go, utils/utils.go.
--   `next_token` is NextToken, with readString, readRawString, readByte, readNumber and
--   readIdentifer under their own names. Proofs: Lexer/Progress, Lexer/Total.
-- Parser and its children: parser/parser.go. Parser/Tree has the nodes of ast/ast.go as the
--   parser makes them, where Go's nil is a constructor of its own. `Parser` of Parser/State
--   has the fields of the struct but the two tables of functions, which are `prefix_parse_fn`
--   and `infix_parse_fn` of Parser/Pratt; the lexer in it is the list of the tokens that it
--   still gives. A function of the parser changes this record and gives its result, under its
--   own name: types in Parser/Types, parameters, blocks and identifiers in Lists, matches in
--   Matches, the precedences in Levels, the other expressions in Expressions, parseExpression
--   in Pratt, statements in Statements, declarations in Declarations, parseStatement,
--   ParseProgram and ParseDefinitions in Program. The functions that call one another are
--   fields of `Rec`, and `parsing` ties them together. Of a message its fixed text is kept.
--   Parser/Printer is an independent printer of expressions, with the precedences of the
--   language written out; proofs: Parser/Standing, Reading, RoundTrip, Sequence and Whole.
-- Types: types/type.go, with `containsTypeParamRef` of typechecker/typechecker.go. `Ty` has a
--   constructor for each Go type, and `signature` and `substitute_type_params` a clause for
--   each. Proofs: Types/Substitution and Types/Printed.
-- TypeEnv: typechecker/type_env.go. An environment with its outer ones is a list from the
--   innermost out; Set, Get, SetConst and IsConst are `set_type`, `get_type`, `set_const` and
--   `is_const`, and the panics of Set are `panic`. Proofs: TypeEnv/Laws.
-- TypeChecker, TypeChecker/Paths: typechecker/typechecker.go, of it `unifyType` and
--   `allPathsReturn`, which are `unify_type` and `all_paths_return`; the latter reads the
--   blocks of Parser/Tree, and a nil pointer that it follows is `panic`. Proofs:
--   TypeChecker/Inference, and Paths itself.
-- Scope: object/scope.go. A scope with its outer ones is a list of stores; Get, Set,
--   DeclareVar, Resolve and AssignVar are `get`, `set_var`, `declare_var`, `resolve_scope` and
--   `assign_var`. Proofs: Scope/Laws.
-- Machine, Machine/Word: vm/vm.go, the operators of the instruction loop and `push` and `pop`
--   on the running fiber. executeBinaryOperation, executeComparison, executeBangOperator and
--   executeMinusOperator keep their names; what each computes before its push is `binary`,
--   `comparison`, `bang` and `minus`. Machine/Word is Go's int64. Proofs: Machine/Balanced,
--   Order, Division, Range.
-- Ast: ast/ast.go, the nodes that the compiler reads, after the type checker. A node whose
--   cast is set stands under `cast`.
-- Compiler and its children: compiler/compiler.go. `Compiler` of Compiler/State has the fields
--   of the struct, with the scopes and loops as lists from the innermost out, and the
--   functions that emit and patch instructions under their own names. Compile is the mutual
--   block of Compiler/Compile, over the helpers for each node: Control (IfExpr, ForStmt,
--   BreakStmt, ContinueStmt), ForIn, Match, Names (identifiers, declarations, assignments,
--   casts), Functions (function literals and declarations, calls, method calls). Program has
--   New, the case of Program, buildItabsFromTypes and CompilePackages.
-- Vm and its children: vm/vm.go, vm/frame.go, vm/fiber.go and the object types of
--   object/object.go. Objects with parts are cells behind pointers (Vm/State); arrays, maps,
--   strings and slices are Vm/Collections; calls and closures Vm/Calls; the instructions
--   Vm/Execute and Vm/Instructions; the functions of object.Builtins stand at the pointers
--   `builtins` of the machine; the switch and the loop of runFiber Vm/Run, where `execute` is
--   the switch and `rounds` the loop. Proofs: Vm/Shows (what an access changes), Vm/Leads
--   (states that rounds lead to), Vm/Returns (calls), Vm/Elements (shared elements).
-- Correct and its children: the compiler against the machine, for expressions of literals and
--   operators. Correct/Formula has these expressions with what they mean, Emitted what Compile
--   makes of them, Steps, Stack, Runs and Values what the machine does with the code, and
--   Refines the two together.
-- Tests and its children: runs of the definitions on small inputs, and one application of each
--   theorem at a concrete input.
--
-- Fuel. A loop of the lexer has fuel for the bytes of the source and one round more, and no
-- result where that runs out; `next_token` has fuel for its comments and hands on a loop that
-- has no result. Lexer/Progress bounds the loops and Lexer/Total `next_token`.
-- Instructions.String does not end at a byte that is no opcode, so `listing` takes fuel:
-- Code/Listing/Laws has the fuel that is enough, and the case where none is. The rounds of
-- runFiber are bounded by the source itself, with `fiberQuantum`. `parsing` takes fuel for the
-- depth of the calls and the rounds of a loop, and `parse_tokens` gives it two for each token
-- and four more; Parser/Whole has that this is enough for the programs it prints. VM.Run takes
-- fuel, for a program need not end; Scheduler/Run has the fuel that an idle machine needs.
--
-- Machine integers. An int64 is its word, a number below 2 ^ 64, and every operation is taken
-- modulo 2 ^ 64; a byte of the machine is taken modulo 256; the counts, offsets and indices,
-- which are Go's int, do not come near its bounds and are plain numbers.
--
-- Parameters. What strconv makes of the digits of a number is a parameter of the parser. The
-- operations on floats are a parameter of Machine. The built-in functions are a parameter of
-- Vm/Calls and Vm/Run: what a function does with its arguments and the machine. What a fiber
-- does in its turn (runFiber) is a parameter of VM.Run in Scheduler/Run, and so are the values
-- that fibers exchange. Wake-ups, which goroutines of the built-in functions write to a Go
-- channel, are the list of those that have arrived.
--
-- Not modelled: evaluator, loader, codegen, and of the typechecker what is not named above,
-- its walk over the tree, which stand on the parts above; the debugger of vm, with source maps
-- and debug symbols, which do not reach the instructions; irgen, sydney_rt and the tools under
-- cmd, lsp and vscode, which emit or link code for other systems; the built-in functions of
-- object/builtins.go, which read files, sockets and clocks.
pub mod Base
pub mod Code
pub mod SymbolTable
pub mod Channel
pub mod Scheduler
pub mod Token
pub mod Lexer
pub mod Parser
pub mod Types
pub mod TypeEnv
pub mod TypeChecker
pub mod Scope
pub mod Machine
pub mod Ast
pub mod Compiler
pub mod Vm
pub mod Correct
pub mod Tests
