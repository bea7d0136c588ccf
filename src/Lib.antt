-- ===== src/Lib.antt =====
-- HolyD compiles a small C-like language. Source text becomes tokens (src/lexer), a tree
-- (src/parser, src/ast), a side table of symbols, slots and labels (src/resolve.c), and then
-- bytecode for a stack machine (src/compiler.c), C or assembly, or directly a Windows executable
-- (src/emit_pe.c). The bytecode machine and the generated C share the operations on values in
-- src/runtime.c.
--
-- Parts and files:
-- - Syntax, Syntax/Token: the tokens of src/lexer/lexer.h, the tree of src/ast/ast.h and the types of
--   src/ast/type_syntax.h as data types. A pointer to a node is the subtree; a node that a table keys
--   by its address carries an identifier, NodeId, in its place.
-- - Outcome: what a C function that can fail comes to. A printed error is `fail`, behaviour that C
--   leaves undefined (signed overflow, an access out of bounds) is `undefined`, and `exhausted` says
--   only that the fuel of the model ran out.
-- - Runtime/Value, Numeric, Array, Print: src/runtime.c and the value type of src/eval.h (HDBinary is
--   `binary` and `binary_numeric`, HDConcat `concat`, HDIndex `index`, HDPrintN `print_n`). Array
--   elements live in a store of blocks, and an array value is an address and a length, so that copies
--   of an array share their elements as in the program. `double` arithmetic and whether `malloc`
--   succeeds belong to the host, an instance argument of type Host.
-- - Environment: the chain of name-keyed scopes in src/eval.c (EnvFindLocal, EnvDefine, EnvSet, EnvGet).
-- - Lexer/Keywords, Cursor, Scan, Next: src/lexer/lexer.c and the loop of dump_tokens in src/main.c.
--   A pointer into the source is an offset with the bytes from there on, which end in front of the
--   terminating NUL; a loop runs on as much fuel as there are bytes left, and every turn takes one.
-- - Resolve/Table: the records of src/resolve.h and the lookups of src/resolve.c. Scopes, Walk,
--   Collect, Labels and Program: the walks that fill the table, up to HDResolveProgram. A visitor of
--   visit_children is what it does at a node, `enter`, and `visit` takes it through the tree. The loop
--   of link_fallbacks runs over a table that it extends; only symbols that stood there before extend
--   it, so twice as many turns as there were symbols are given.
-- - Compiler/State, Expression, Statement, Program: the compiler of src/compiler.c from tree to
--   bytecode; an emitter of the source is a function on State, and patching writes into the chunk.
-- - Vm/Bytecode, Machine, Step: run_chunk, call_function and HDRunProgram of src/compiler.c. `step`
--   has one clause for each instruction, `round` is one round of the loop.
-- - Pe/Buffer, Image, Entry: src/emit_pe.c. Pe/Loader reads an image the way the PE format prescribes
--   and shares nothing with the writer.
--
-- Proofs: Compiler/Code describes the code of an expression without patching, Compiler/Patch and
-- Emission relate the compiler to it. Compiler/Eval evaluates a tree directly. Vm/Steps turns
-- rounds of the machine into a relation, Compiler/Runs says what it means that a piece of code
-- evaluates an expression, Flow, Meaning, Combine, Branch and Names prove it for single pieces,
-- and Correct and Returned put them together. Resolve/Visits and Statements lift what each step
-- keeps to the walks, Slots, Invariant, Keeps, Passes and Symbols keep the table of symbols well
-- formed, and Numbered and Apart say what that means for a whole program. Found to Ends follow the
-- loop of link_fallbacks, and Stray and Leaves the check on break and continue, Jumps, Binds,
-- Gotos and Targets the gotos. Lexer/Moves to Switch show that the lexer only steps over bytes
-- that are there, Positions, Spans and Dump what follows for its tokens, and Words, KeywordLaws,
-- Digits, Spelling, Quotes and RoundTrip what it reads from which text. Compiler/Loops and
-- Balance, Environment/Laws, Runtime/ArrayLaws, Runtime/Escapes, Vm/Bounds, Vm/Frames and
-- Pe/Correct hold the properties of their parts, and Tests the properties at concrete inputs.
--
-- Fuel: run_chunk takes a bound for the rounds of one activation and one for the nesting of calls
-- and of printed arrays. The code of an expression jumps forward only, so as many rounds as the
-- chunk has instructions are enough for it; the nesting bound appears on both sides of the
-- theorem.
--
-- Not modelled: the parser and the type checker, the hash index in front of the bindings of
-- src/resolve.c, the tree walker of src/eval.c, the C and assembly backends, the driver but for
-- its loop over tokens, and the native functions of src/ffi.c and the platform code, which the
-- machine takes as a parameter. Allocation failures inside the compiler and the memory that it
-- frees are left out as well.
pub mod Prelude
pub mod Outcome
pub mod Syntax
pub mod Lexer
pub mod Pe
pub mod Runtime
pub mod Environment
pub mod Vm
pub mod Resolve
pub mod Compiler
pub mod Tests
