-- ===== src/GoLib.antt =====
-- What the source uses of Go's standard library, over byte strings: `strings`, `unicode/utf8`,
-- `path/filepath`, `strconv` and `encoding/base64`; and its errors.
pub mod Errors
pub mod Exec
pub mod Base64
pub mod Strings
pub mod Numbers
