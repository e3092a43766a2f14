-- ===== src/Utils/Text.antt =====
-- What the streams of tn5250 write.
pub mod Lines
pub mod OneLine
