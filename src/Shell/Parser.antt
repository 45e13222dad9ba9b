-- ===== src/Shell/Parser.antt =====
-- project2/src/np_multi_proc/src/Parser.cpp: a command line becomes commands with their arguments
-- and operators.
pub mod Model
pub mod Total
pub mod Operators
pub mod Shape
pub mod Printed
pub mod Print
