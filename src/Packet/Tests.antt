-- ===== src/Packet/Tests.antt =====
-- Runs of the packet parser on a packet of one code block, and its theorems at concrete streams.
use rtp_decoder_test.Base.{◌≡◌, refl, false, none, some, [], ◌∷◌, arith}
use rtp_decoder_test.Codestream.{
  Codestream, append_chunk, empty, get_byte, refill, get_bit, get_bits_from, packetheader_get_bits,
  packetheader_flush_bits, take_contiguous, copy_loop, advance, walk,
}
use rtp_decoder_test.Codestream.Place.{IsValid}
use rtp_decoder_test.Codestream.Refine.{view}
use rtp_decoder_test.Codestream.Reads.{Alike}
use rtp_decoder_test.Codestream.Total.{Returns, Any}
use rtp_decoder_test.Packet.Block.{
  Node, Block, tag_rounds, tag_tree_decode, count_ones, getlblockinc, doublings, int_log2,
  new_passes,
}
use rtp_decoder_test.Packet.Segments.{
  first_segment, placeholder_segment, with_cleanup, ht_passes_left, passes_left,
}
use rtp_decoder_test.Packet.Read.{
  Precinct, included, block_header, block_headers, band_headers, store_body, block_body,
  block_bodies, band_bodies, parse_packet_header, read_packet,
}
use rtp_decoder_test.Packet.Arena.{allocate, Stacked, allocate-Stacked}
use rtp_decoder_test.Packet.Readers.{read_packet-Alike}
use rtp_decoder_test.Packet.Returns.{band_headers-Returns}

abbrev pub fresh : Block
fresh = record {
  data_bytes = none;
  pass_length_0 = 0;
  pass_length_1 = 0;
  total = 0;
  scup = 0;
  modes = 0;
  incl = 0;
  lblock = 0;
  zbp = 0;
  npasses = 0;
  ht_plhd = false;
}

abbrev pub unseen : Node
unseen = record { val = 0; vis = 0 }

abbrev pub packet : Precinct
packet = record {
  ncbw = 1;
  ncbh = 1;
  bands = (record { incl_node = unseen; zbp_node = unseen; block = fresh } ∷ []) ∷ [];
}

-- A header of one byte: a packet that is not empty, an included code block with no missing bit plane, one
-- pass, and a length of 5 in 3 bits; then the body.
abbrev two_chunks : Codestream
two_chunks = append_chunk (3 ∷ 0x25 ∷ 0x47 ∷ 9 ∷ []) (append_chunk (0xe5 ∷ 1 ∷ 2 ∷ []) empty)

abbrev pub one_chunk : Codestream
one_chunk = append_chunk (0xe5 ∷ 1 ∷ 2 ∷ 3 ∷ 0x25 ∷ 0x47 ∷ 9 ∷ []) empty

abbrev seen : Node
seen = record { val = 0; vis = 1 }

abbrev pub packet_read : Precinct
packet_read = record packet {
  bands =
      (record {
        incl_node = seen;
        zbp_node = seen;
        block = record {
          data_bytes = some (1 ∷ 2 ∷ 3 ∷ 0x25 ∷ 0x47 ∷ []);
          pass_length_0 = 5;
          pass_length_1 = 0;
          total = 5;
          scup = 0x475;
          modes = 72;
          incl = 1;
          lblock = 3;
          zbp = 0;
          npasses = 1;
          ht_plhd = false;
        };
      }
        ∷ [])
      ∷ [];
}

pub one_block :
    read_packet 72 packet one_chunk
    ≡ some ((false, packet_read), record one_chunk { cur_offset = 6; last = 0 })
unfolding read_packet parse_packet_header band_headers block_headers block_header included
    new_passes tag_tree_decode tag_rounds getlblockinc count_ones doublings int_log2 first_segment
    placeholder_segment with_cleanup passes_left ht_passes_left band_bodies block_bodies block_body
    store_body take_contiguous copy_loop advance walk packetheader_flush_bits packetheader_get_bits
    get_bits_from get_bit refill get_byte append_chunk empty
one_block = refl

two_chunks-IsValid : IsValid two_chunks
unfolding append_chunk empty
two_chunks-IsValid = record {
  nonempty = (omega arith, (omega arith, tt));
  placed = record { in_chain = omega arith; inside = omega arith; counted = refl };
}

pub one_chunk-IsValid : IsValid one_chunk
unfolding append_chunk empty
one_chunk-IsValid = record {
  nonempty = (omega arith, tt);
  placed = record { in_chain = omega arith; inside = omega arith; counted = refl };
}

same_bytes : view two_chunks ≡ view one_chunk
unfolding append_chunk empty
same_bytes = refl

read_packet-Alike_example :
    Alike (read_packet 72 packet two_chunks) (read_packet 72 packet one_chunk)
read_packet-Alike_example =
    read_packet-Alike 72 packet two_chunks one_chunk two_chunks-IsValid one_chunk-IsValid same_bytes

band_headers-Returns_example : Returns Any (band_headers 72 1 packet.bands two_chunks)
band_headers-Returns_example =
    band_headers-Returns 72 packet two_chunks ((omega arith, tt)) two_chunks-IsValid

allocate-Stacked_example :
    Stacked
      (allocate (100 ∷ 5000000 ∷ 200 ∷ []) [] 0).0
      (allocate (100 ∷ 5000000 ∷ 200 ∷ []) [] 0).1
allocate-Stacked_example =
    allocate-Stacked (100 ∷ 5000000 ∷ 200 ∷ []) (omega arith, (omega arith, (omega arith, tt)))
