-- ===== src/Handler.antt =====
-- tn5250/client/protocol_handler.h and protocol_handler.cpp: the Telnet side of a session.
pub mod State
pub mod Send
pub mod Repair
pub mod Handshake
pub mod Receive
pub mod RoundTrip
pub mod Unframed
pub mod Environ
pub mod Announce
pub mod Completes
pub mod Reconnect
