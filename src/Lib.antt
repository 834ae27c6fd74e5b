-- ===== src/Lib.antt =====
-- A receiver of JPEG 2000 codestreams over RTP (RFC 9828): datagrams come in out of order, packets
-- leave the jitter buffer in order, a frame handler chains their payloads to one codestream and
-- tells its consumers of chunks, aborts and finished frames, and a parser walks the codestream.
--
-- packet_parser/type.hpp, class codestream: module Codestream. The bytes of a frame stay in the
-- packets' buffers; `chunks` are those buffers, the cursor is a chunk and an offset. A reader runs in
-- the monad `M` of a state and a fault, `none`, for a read outside of a buffer. Codestream.Flat is
-- what the reader is for: a cursor over one sequence of bytes. Codestream.Refine relates the two.
-- The members for instrumentation (the tallies of reads) are left out.
--
-- packet_parser/j2k_header.cpp, geometry_signature: module Signature, with the codes of module
-- Marker. The loop runs on fuel, the length of the header, of which each round uses 4 bytes at least.
-- Offsets and lengths are size_t; they stay below the length of a datagram and do not wrap.
--
-- frame_handler.hpp, class frame_handler: module Frame. Frame.State has the data members as the
-- record FrameHandler, whose `calls` are the callbacks made so far with the latest first; a callback
-- that is not registered observes nothing. Frame.Handlers has pull_data, cut into one function for
-- each of its steps. What a resync callback answers comes with the packet (record Packet). The tile
-- handler and parse_main_header are the parameter Parser, without hypotheses unless a theorem names
-- them. Clocks, logs, the dump of frames to files and lost_frames, which nothing counts, are left out.
-- The 32-bit counters wrap around; the size_t counters are unbounded. Frame.Contract has the contract
-- that the comments on the callbacks document, as a machine that reads the calls.
--
-- rtp_receiver.hpp and rtp_receiver.cpp, class Receiver: module Receiver. Receiver.State has the data
-- members as the record Receiver and one function for each operation; `delivered` are the frames that
-- the hook got, the latest first. Arrays are functions on indices. A datagram, a turn of the worker and
-- a slab that is given back are steps that do not overlap; the queue between the threads is its own
-- record JobQueue. The loop that gives up waiting for a packet runs on 2 ^ 16 rounds, more than a packet
-- can be ahead, and the release in order on the number of pending packets. Sequence numbers wrap around
-- at 2 ^ 16, and comparisons of int16_t are written out. The frames of the hook are what the frame
-- handler gets: module Hook has the hook of main.cpp that makes the calls. Receiver.Passed describes how
-- jobs leave the ring, a number at a time.
--
-- packet_parser/tile_handler.hpp, class tile_handler: module Tile. Tile.State has the signals and the
-- recovery, Tile.Walk the walks of parse and flush, over the parameter PrecinctParser, which answers
-- for parse_one_precinct, Tile.Grid the rectangles of the tiles, and Tile.Create the components of a
-- tile and all of create. The walks run on fuel, which Tile.Progress shows to be enough. A read behind
-- the end of the progression is the outcome out_of_bounds. Frame.State.Parser stands for this class in
-- the frame handler; its results are not tied to module Tile.
--
-- packet_parser/j2k_header.cpp: module Header, in the monad of the chain reader, with a child for each
-- segment and Header.Main for parse_main_header; a write or read behind an array is the fault `none`. The
-- arrays are lists of their fixed length. The scan runs on fuel for one more marker than there are bytes.
-- What a parser returns as EXIT_FAILURE is true; parse_main_header does not look at it, as in the code.
--
-- packet_parser/j2k_packet.cpp: module Packet. Packet.Progression has prepare_precinct_structure: Visit the
-- body of the loops, Walk the loops, where the two inner loops are a list of components and resolutions; the
-- loops over positions run on fuel for more positions than the edges of the tile. Packet.Block and
-- Packet.Segments have the header of a code block, Packet.Read the loops over code blocks and bands, the
-- bodies, and read_packet. Packet.Tree has the tag trees, as nodes in one block of memory, Packet.Geometry
-- the rectangles of resolutions, subbands, precincts and code blocks, and Packet.Structure the loops of
-- parepare_tcomp_structure that fill them. Packet.Lookup has parse_one_precinct over the structures of a
-- tile, and what tile_handler::restart does to them; Packet.Structure.Gives has the rules of the
-- proofs on the structures. The loop of tag_tree_size has fuel for 32 halvings of
-- a uint32_t. Packet.Arena has stackAlloc of packet_parser/utils.cpp; the structures take it to have room,
-- and coordinates to be ints that are not negative. Codestream.Reads and Codestream.Total are what the
-- proofs on both parsers share: code that only reads from the stream, and code that returns.
--
-- Not modelled: what happens in the structures when stackAlloc has no room, needs_termination, which
-- nothing calls, the statistics of PARSER_OVERSHOOT_INSTR, sockets, threads' wake-ups, the command line,
-- and files.
pub mod Base
pub mod Codestream
pub mod Marker
pub mod Signature
pub mod Frame
pub mod Receiver
pub mod Tile
pub mod Header
pub mod Packet
pub mod Hook
