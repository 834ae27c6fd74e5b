-- ===== src/Packet.antt =====
-- packet_parser/j2k_packet.cpp: the structure of a tile and the headers of its packets.
pub mod Progression
pub mod Block
pub mod Arena
pub mod Tree
pub mod Geometry
pub mod Structure
pub mod Lookup
pub mod Segments
pub mod Read
pub mod SegmentReaders
pub mod Readers
pub mod Lblock
pub mod FirstSegment
pub mod Rounds
pub mod Returns
pub mod Tests
