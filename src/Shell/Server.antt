-- ===== src/Shell/Server.antt =====
-- MultiProcServer of project2/src/np_multi_proc/src/MultiProcServer.cpp: the users and the messages
-- in shared memory when a user comes, leaves or is told something.
pub mod Model
pub mod Told
mod Samples
