-- ===== src/Vm.antt =====
-- The bytecode VM of src/compiler.c.
pub mod Bytecode
pub mod Machine
pub mod Step
pub mod Steps
pub mod Bounds
pub mod Frames
