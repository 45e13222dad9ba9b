-- ===== src/Socks.antt =====
-- The SOCKS4a server of project4/src/socksServer, and the client side of project4/src/consoleCgi.
pub mod Request
pub mod Response
pub mod Client
pub mod Firewall
pub mod Wire
pub mod Session
pub mod Through
mod Samples
