-- ===== src/Go.antt =====
-- What the program uses of the Go language and its standard library: texts and the package
-- `strings`, numbers and the package `strconv`, paths and `path/filepath`, errors and `errors`.
pub mod Text
pub mod Strings
pub mod Number
pub mod Decimal
pub mod FilePath
pub mod Errors
pub mod Maps
