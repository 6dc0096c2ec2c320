-- ===== src/Std.antt =====
-- What the client uses of Go's standard library: `strconv` and `encoding/base64`.
pub mod Decimal
pub mod Base64
