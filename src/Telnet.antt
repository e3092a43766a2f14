-- ===== src/Telnet.antt =====
-- tn5250/telnet: the Telnet protocol.
pub mod Command
pub mod Client
pub mod Names
