-- ===== src/Decoder.antt =====
-- tn5250/client/decoder.cpp and decoder.h: the application-layer decoder.
pub mod Event
pub mod Orders
pub mod Payload
pub mod Stream
pub mod Grammar
