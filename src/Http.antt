-- ===== src/Http.antt =====
-- The HTTP servers of project3/src/part1-http and project3/src/part2.
pub mod Request
pub mod Query
pub mod Print
pub mod Session
pub mod Passed
pub mod Route
pub mod Served
mod Samples
