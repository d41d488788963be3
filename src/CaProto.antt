-- ===== src/CaProto.antt =====
-- netfetch/src/ca/proto.rs: the Channel Access protocol of the client.
pub mod Message
pub mod Fields
pub mod Error
pub mod Encode
pub mod Wire
pub mod Header
pub mod DbrType
pub mod Value
pub mod Decode
pub mod Parser
pub mod Output
pub mod Poll
pub mod Convert
mod Examples
