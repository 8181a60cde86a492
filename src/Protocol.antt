-- ===== src/Protocol.antt =====
-- The wire protocol: protocol/src/protocol.c and protocol/include/sharak/protocol.h.
pub mod Wire
pub mod Crc
pub mod Payload
pub mod Frame
pub mod Decoder
