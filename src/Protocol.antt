-- ===== src/Protocol.antt =====
-- src/lms200/protocol: the checksum, the framing and the telegrams of the LMS2xx.
pub mod Crc
pub mod Framing
pub mod Commands
pub mod Responses
pub mod Measurements
