-- ===== src/Tile.antt =====
-- packet_parser/tile_handler.hpp, class tile_handler: the walk over the precincts of a frame, and its
-- recovery by the signals of body packets. The parser of one precinct is a parameter.
pub mod State
pub mod Walk
pub mod Grid
pub mod Create
pub mod Recovery
pub mod Progress
mod Tests
