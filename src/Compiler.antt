-- ===== src/Compiler.antt =====
-- The bytecode compiler of src/compiler.c.
pub mod State
pub mod Expression
pub mod Code
pub mod Patch
pub mod Emission
pub mod Eval
pub mod Names
pub mod Runs
pub mod Flow
pub mod Combine
pub mod Branch
pub mod Meaning
pub mod Correct
pub mod Returned
pub mod Statement
pub mod Program
pub mod Loops
pub mod Balance
