-- ===== src/Message/Typed.antt =====
-- The members of the objects of tn5250/message keep to the ranges of their C++ types.
pub mod Orders
pub mod Commands
pub mod Records
