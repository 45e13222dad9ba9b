-- ===== src/Shell/Builtin.antt =====
-- The built-in commands and the environment of a shell: BuildinCommand.cpp and setEnv to resetEnv of
-- NPShell.cpp in project2/src/np_multi_proc/src.
pub mod Env
pub mod Model
pub mod Tell
mod Samples
