-- ===== src/Packet/Readers.antt =====
-- packet_parser/j2k_packet.cpp: a packet is read from the bytes of the stream, however they are cut.
use rtp_decoder_test.Base.{
  ℕ, zero, suc, ◌+◌, ◌≡◌, not, Option, none, some, List, [], ◌∷◌, ltb, leb, ◌==◌, get_elem?, length,
  arith, Bool-cases, inl, inr,
}
use rtp_decoder_test.Codestream.{take_contiguous}
use rtp_decoder_test.Codestream.{Codestream}
use rtp_decoder_test.Codestream.Place.{IsValid}
use rtp_decoder_test.Codestream.Refine.{view}
use rtp_decoder_test.Codestream.Flat
use rtp_decoder_test.Codestream.Flat.{Flat}
use rtp_decoder_test.Codestream.Contiguous.{take_contiguous-Refines}
use rtp_decoder_test.Codestream.Reads.{
  Reads, Monotone, Alike, Refines-Reads, pure-Reads, none-Reads, if-Reads, bind-Reads,
  get_bit-Reads, flush_bits-Reads,
}
use rtp_decoder_test.Header.Readers.{checked-Reads}
use rtp_decoder_test.Packet.Block.{Block, int_log2}
use rtp_decoder_test.Packet.Segments.{less_32}
use rtp_decoder_test.Packet.Read.{
  Cell, Precinct, included, block_header, block_headers, band_headers, store_body, block_body,
  block_bodies, band_bodies, nb_code_blocks, parse_packet_header, read_packet,
}
use rtp_decoder_test.Packet.SegmentReaders.{
  tag_tree_decode-Reads, getlblockinc-Reads, new_passes-Reads, first_segment-Reads,
  passes_left-Reads,
}

take_contiguous-Monotone : (len : ℕ) → Monotone (Flat.take_contiguous len)
unfolding Flat.take_contiguous
take_contiguous-Monotone len v = elim (Bool-cases (leb (length v.bytes) v.pos)) [
  | inl e ↦ rw e (omega arith)
  | inr e ↦ rw e (omega arith)
]

take_contiguous-Reads : (len : ℕ) → Reads (take_contiguous len)
take_contiguous-Reads len =
    Refines-Reads (Flat.take_contiguous len) (take_contiguous-Refines len)
      (take_contiguous-Monotone len)

included-Reads : (b : Block) → Reads (included b)
unfolding included
included-Reads b = bind-Reads new_passes-Reads λ newpasses.
    if-Reads (leb 100 (b.npasses + newpasses)) (pure-Reads _) (
      bind-Reads getlblockinc-Reads λ llen.
        if-Reads (ltb 16 (b.lblock + llen + int_log2 newpasses)) (pure-Reads _) (
          bind-Reads (first_segment-Reads newpasses _)
            λ g. if-Reads g.failed (pure-Reads _) (passes_left-Reads newpasses g)))

block_header-Reads : (cbs : ℕ) (c : Cell) → Reads (block_header cbs c)
unfolding block_header
block_header-Reads cbs c = bind-Reads (tag_tree_decode-Reads c.incl_node 1) λ (v, incl_node).
    if-Reads (not (v == 0)) (pure-Reads _) (
      bind-Reads (tag_tree_decode-Reads c.zbp_node 14)
        λ (zbp, zbp_node). bind-Reads (included-Reads _) λ (failed, read). pure-Reads _)

block_headers-Reads : (cbs n : ℕ) (cells : List Cell) → Reads (block_headers cbs n cells)
unfolding block_headers
block_headers-Reads cbs zero cells = pure-Reads _
block_headers-Reads cbs (suc n) [] = none-Reads
block_headers-Reads cbs (suc n) (c ∷ cells) =
    bind-Reads (block_header-Reads cbs c) λ (failed, read).
      if-Reads failed (pure-Reads _)
        (bind-Reads (block_headers-Reads cbs n cells) λ (stopped, rest). pure-Reads _)

band_headers-Reads : (cbs n : ℕ) (bands : List (List Cell)) → Reads (band_headers cbs n bands)
unfolding band_headers
band_headers-Reads cbs n [] = pure-Reads _
band_headers-Reads cbs n (band ∷ bands) =
    bind-Reads (block_headers-Reads cbs n band) λ (failed, read).
      if-Reads failed (pure-Reads _)
        (bind-Reads (band_headers-Reads cbs n bands) λ (stopped, rest). pure-Reads _)

store_body-Reads : (b : Block) (data_bytes : Option (List ℕ)) → Reads (store_body b data_bytes)
unfolding store_body
store_body-Reads b none = pure-Reads _
store_body-Reads b (some bytes) = if-Reads (b.total == 0) (pure-Reads _) (
    bind-Reads (checked-Reads (get_elem? bytes (less_32 b.pass_length_0 1))) λ hi.
      bind-Reads (checked-Reads (get_elem? bytes (less_32 b.pass_length_0 2))) λ lo. pure-Reads _)

block_body-Reads : (b : Block) → Reads (block_body b)
unfolding block_body
block_body-Reads b = bind-Reads (take_contiguous-Reads b.total) (store_body-Reads b)

block_bodies-Reads : (n : ℕ) (cells : List Cell) → Reads (block_bodies n cells)
unfolding block_bodies
block_bodies-Reads zero cells = pure-Reads cells
block_bodies-Reads (suc n) [] = none-Reads
block_bodies-Reads (suc n) (c ∷ cells) =
    bind-Reads (block_body-Reads c.block)
      λ b. bind-Reads (block_bodies-Reads n cells) λ rest. pure-Reads _

band_bodies-Reads : (n : ℕ) (bands : List (List Cell)) → Reads (band_bodies n bands)
unfolding band_bodies
band_bodies-Reads n [] = pure-Reads []
band_bodies-Reads n (band ∷ bands) =
    bind-Reads (block_bodies-Reads n band)
      λ read. bind-Reads (band_bodies-Reads n bands) λ rest. pure-Reads _

parse_packet_header-Reads : (cbs : ℕ) (prec : Precinct) → Reads (parse_packet_header cbs prec)
unfolding parse_packet_header
parse_packet_header-Reads cbs prec =
    bind-Reads (band_headers-Reads cbs (nb_code_blocks prec) prec.bands) λ (failed, headers).
      if-Reads failed (pure-Reads _) (
        bind-Reads flush_bits-Reads
          λ u. bind-Reads (band_bodies-Reads (nb_code_blocks prec) headers) λ bodies. pure-Reads _)

read_packet-Reads : (cbs : ℕ) (prec : Precinct) → Reads (read_packet cbs prec)
unfolding read_packet
read_packet-Reads cbs prec = bind-Reads get_bit-Reads λ bit.
    if-Reads (bit == 0) (bind-Reads flush_bits-Reads λ u. pure-Reads _)
      (parse_packet_header-Reads cbs prec)

-- On two valid streams of the same bytes, at the same position and with the same bit register, however
-- the bytes are cut into chunks, the read of a packet faults on both or on neither, returns the same result
-- and the same code blocks, with the same bodies, and leaves both streams at the same position and with the
-- same bit register.
pub read_packet-Alike :
    (cbs : ℕ) (prec : Precinct) (s t : Codestream)
    → IsValid s
    → IsValid t
    → view s ≡ view t
    → Alike (read_packet cbs prec s) (read_packet cbs prec t)
read_packet-Alike cbs prec s t v w e = (read_packet-Reads cbs prec).alike s t v w e
