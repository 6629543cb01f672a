-- ===== src/Serde.antt =====
-- The JSON reader and writer of core/include/katana/core/serde.hpp, in its SSE2 variant: the cursor, the
-- values that it reads, the escaping of strings and the integers that it writes.
pub mod Cursor
pub mod Whitespace
pub mod Escape
pub mod Escaped
pub mod Strings
pub mod Parse
pub mod Numbers
pub mod Format
pub mod Decimal
pub mod Arrays
mod Tests
