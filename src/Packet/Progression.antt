-- ===== src/Packet/Progression.antt =====
-- packet_parser/j2k_packet.cpp, prepare_precinct_structure: the order of the precincts of a tile.
pub mod Visit
pub mod Walk
pub mod Commute
pub mod Orders
pub mod Raster
pub mod Numbers
pub mod Returns
pub mod Finishes
mod Tests
