-- ===== src/Single.antt =====
-- The users, pipes and server of np_single_proc (UserManager.cpp, PipeManager.cpp and
-- SingleProcServer.cpp of project2/src/np_single_proc/src): the users are objects on the heap that three
-- maps point to.
pub mod Names
pub mod Users
pub mod Indexed
pub mod Arrived
pub mod Renamed
pub mod Ids
pub mod Table
pub mod Requests
pub mod Refines
pub mod Pipes
pub mod Between
pub mod Server
pub mod Left
pub mod Run
mod Samples
