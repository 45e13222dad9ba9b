-- ===== src/Console.antt =====
-- The console of project4/src/consoleCgi/src: what it writes into the page, and its sessions.
pub mod Render
pub mod Literal
pub mod Shows
pub mod Page
pub mod Session
pub mod Start
pub mod Script
pub mod Told
pub mod Direct
pub mod Dialogue
pub mod Waits
pub mod Record
pub mod Reach
mod Samples
