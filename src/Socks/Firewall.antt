-- ===== src/Socks/Firewall.antt =====
-- project4/src/socksServer/src/Firewall.cpp: the rules of socks.conf and the test of a request.
pub mod Defs
pub mod Model
pub mod Wildcard
pub mod Rules
