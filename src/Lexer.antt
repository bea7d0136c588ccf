-- ===== src/Lexer.antt =====
-- The scanner of src/lexer/lexer.c: a pointer into the source is an offset with the bytes from
-- there on, without the terminating NUL; past them `peek` sees that NUL.
pub mod Keywords
pub mod Cursor
pub mod Scan
pub mod Next
pub mod Moves
pub mod Turns
pub mod Scans
pub mod Switch
pub mod Positions
pub mod Spans
pub mod Dump
pub mod Words
pub mod Spelling
pub mod KeywordLaws
pub mod Digits
pub mod RoundTrip
pub mod Quotes
pub mod Names
pub mod NameLaws
