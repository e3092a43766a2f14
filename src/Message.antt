-- ===== src/Message.antt =====
-- tn5250/message: a record with its commands and their orders as objects.
pub mod Result
pub mod Order
pub mod Command
pub mod Header
pub mod OperationCode
pub mod Record
pub mod OnWire
pub mod Agreement
pub mod Session
pub mod Describe
pub mod Typed
