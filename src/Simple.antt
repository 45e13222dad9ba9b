-- ===== src/Simple.antt =====
-- The shell of project2/src/np_simple, which serves one user with pipes and files alone.
pub mod Parser
pub mod Pipes
pub mod Shell
pub mod Bounds
pub mod Ends
pub mod Extends
mod Samples
