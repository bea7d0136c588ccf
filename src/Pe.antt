-- ===== src/Pe.antt =====
-- src/emit_pe.c: the direct executable backend.
pub mod Buffer
pub mod Image
pub mod Entry
pub mod Loader
pub mod Correct
