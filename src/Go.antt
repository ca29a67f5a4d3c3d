-- ===== src/Go.antt =====
-- What the program uses of Go's standard library: encoding/binary, encoding/hex, strconv, strings.
pub mod Uvarint
pub mod BigEndian
pub mod Hex
pub mod Decimal
pub mod Strings
pub mod Int
