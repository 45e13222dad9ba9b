-- ===== src/Shell/Run.antt =====
-- NPShell::execute (project2/src/np_multi_proc/src/NPShell.cpp).
pub mod World
pub mod Users
pub mod Model
pub mod Pipeline
pub mod Child
pub mod Files
pub mod Kept
pub mod Vars
pub mod Keeping
pub mod Restored
pub mod Client
mod Samples
