-- ===== src/Single/Run.antt =====
-- The lines of the clients of np_single_proc (NPShell.cpp and BuildinCommand.cpp of
-- project2/src/np_single_proc/src), and the loop of SingleProcServer::run over the clients.
pub mod World
pub mod Builtin
pub mod Users
pub mod Model
pub mod Loop
pub mod Sound
pub mod Sending
pub mod Heap
pub mod Obeying
pub mod Asked
pub mod Progress
pub mod Lines
pub mod Clients
pub mod Buffer
pub mod Turns
pub mod Sent
pub mod Delivered
mod Samples
