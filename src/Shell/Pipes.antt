-- ===== src/Shell/Pipes.antt =====
-- project2/src/np_multi_proc/src/PipeManager.cpp: the pipes between the commands of one shell and the
-- numbered pipes to later lines.
pub mod Model
pub mod Numbered
pub mod Fifos
pub mod Between
mod Samples
