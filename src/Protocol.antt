-- ===== src/Protocol.antt =====
-- The wire protocol: src/protocol.cpp and include/joyson_glove/protocol.hpp.
pub mod Constants
pub mod Packet
pub mod Codec
pub mod Parse
pub mod Responses
