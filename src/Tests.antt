-- ===== src/Tests.antt =====
-- Runs of the code at concrete inputs, and the theorems at them.
mod Handler
mod Decoder
mod Values
mod Telnet
mod Message
mod Text
mod SignOn
