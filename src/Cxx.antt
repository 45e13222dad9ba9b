-- ===== src/Cxx.antt =====
-- The parts of the C++ standard library and of libc that the program computes with.
pub mod Regex
pub mod Numbers
pub mod Map
pub mod TextMap
pub mod Decimal
pub mod Net
pub mod Stream
