-- ===== src/Shell.antt =====
-- The remote shell of project2/src/np_multi_proc: one process for each user, users and messages in
-- shared memory, user pipes as FIFOs.
pub mod Parser
pub mod Users
pub mod Messages
pub mod Pipes
pub mod Server
pub mod Builtin
pub mod Run
mod Samples
