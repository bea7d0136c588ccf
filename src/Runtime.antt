-- ===== src/Runtime.antt =====
-- src/runtime.c: the semantics of values that the bytecode VM and the generated C share.
pub mod Value
pub mod Numeric
pub mod Array
pub mod Print
pub mod ArrayLaws
pub mod Escapes
