-- ===== src/Go.antt =====
-- What the program uses of the packages strings and strconv. A string is its bytes.
pub mod Strings
pub mod Strconv
