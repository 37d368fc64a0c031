-- ===== src/Protocol/Responses.antt =====
-- The responses of the board from the wire to the parsed record: `deserialize` and the parsers of
-- src/protocol.cpp, one after the other.
pub mod Motor
pub mod Sensors
