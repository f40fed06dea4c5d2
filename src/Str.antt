-- ===== src/Str.antt =====
-- lib/src/string: the functions of string.h on a memory of bytes. A pointer is an address, and no
-- object wraps around the end of the address space.
pub mod Copy
pub mod Scan
pub mod Compare
pub mod Token
mod Tests
