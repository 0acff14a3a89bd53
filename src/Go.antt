-- ===== src/Go.antt =====
-- What the program uses of Go's standard library: parts of strings, path, path/filepath and net,
-- over ASCII bytes, for which a character is one byte.
pub mod Strings
pub mod Glob
pub mod Path
pub mod Net
pub mod Sort
pub mod Decimal
pub mod Trim
pub mod Regexp
pub mod Utf8
