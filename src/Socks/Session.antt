-- ===== src/Socks/Session.antt =====
-- project4/src/socksServer/src/SocksSession.cpp: the handlers of one session. A handler returns the
-- session and the operations that it starts, in order; their completions are the arguments of later
-- handlers. An error code is a Boolean, true for an error.
pub mod Model
pub mod Replies
pub mod Gate
pub mod Tunnel
