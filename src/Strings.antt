-- ===== src/Strings.antt =====
-- lib/string.c: blocks of bytes and strings.
pub mod Block
pub mod Str
pub mod Token
pub mod Defs
mod Move
mod Length
pub mod Fill
mod Cut
mod Tokens
mod Span
mod Tests
mod Search
mod Copy
