-- ===== src/Shell/Users.antt =====
-- project2/src/np_multi_proc/src/UserManager.cpp: the users, kept as text in shared memory.
pub mod Model
pub mod Text
pub mod Ids
pub mod Names
