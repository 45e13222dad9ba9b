-- ===== src/Shell/Messages.antt =====
-- project2/src/np_multi_proc/src/MessageManager.cpp: the queue of messages between the processes.
pub mod Model
pub mod Text
pub mod Round
