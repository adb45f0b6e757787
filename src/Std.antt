-- ===== src/Std.antt =====
-- What the program uses of the C++ language and its standard library: the order of strings, ordered
-- and hashed maps, `double`, and text streams.
pub mod Ord
pub mod OrderedMap
pub mod HashMap
pub mod Nested
pub mod Floating
pub mod Text
pub mod Contains
pub mod Lines
pub mod Held
pub mod Chars
