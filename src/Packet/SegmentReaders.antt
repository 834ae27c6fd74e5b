-- ===== src/Packet/SegmentReaders.antt =====
-- packet_parser/j2k_packet.cpp: the lengths of a code block are read from the bytes of the stream.
use rtp_decoder_test.Base.{ℕ, zero, suc, ◌+◌, ◌-◌, ◌*◌, ap, not, ◌||◌, leb, ◌==◌, length}
use mathlib.Core.Path.{subst}
use rtp_decoder_test.Codestream.Flat.{Flat}
use rtp_decoder_test.Codestream.Reads.{
  Reads, Alike, pure-Reads, none-Reads, if-Reads, bind-Reads, get_bit-Reads, get_bits-Reads,
  get_bits_from-Reads,
}
use rtp_decoder_test.Packet.Block.{
  Node, Block, is_termall, is_bypass, is_ht, is_mixed, tag_rounds, tag_tree_decode, count_ones,
  getlblockinc, new_passes,
}
use rtp_decoder_test.Packet.Segments.{
  Segment, no_cleanup, with_cleanup, placeholder_segment, ht_segment, original_segment,
  first_segment, length_bits, ht_passes_left, original_passes_left, passes_left,
}

tag_rounds-Reads : (n curval : ℕ) → Reads (tag_rounds n curval)
unfolding tag_rounds
tag_rounds-Reads zero curval = pure-Reads _
tag_rounds-Reads (suc n) curval =
    bind-Reads get_bit-Reads λ b. if-Reads (b == 0) (tag_rounds-Reads n (curval + 1)) (pure-Reads _)

pub tag_tree_decode-Reads : (node : Node) (threshold : ℕ) → Reads (tag_tree_decode node threshold)
unfolding tag_tree_decode
tag_tree_decode-Reads node threshold =
    bind-Reads (tag_rounds-Reads (threshold - node.val) node.val) λ q. pure-Reads _

count_ones-Reads : (fuel res : ℕ) → Reads (count_ones fuel res)
unfolding count_ones
count_ones-Reads zero res = none-Reads
count_ones-Reads (suc fuel) res =
    bind-Reads get_bit-Reads
      λ b. if-Reads (b == 0) (pure-Reads res) (count_ones-Reads fuel (res + 1))

-- The fuel is the same on streams of the same bytes.
pub getlblockinc-Reads : Reads getlblockinc
unfolding getlblockinc
getlblockinc-Reads = record {
  after = λ s v. (count_ones-Reads _ 0).after s v;
  alike = λ s t v w e.
      subst (λ n. Alike (getlblockinc s) (count_ones n 0 t))
        (ap (λ (x : Flat). 8 * length x.bytes + x.bits + 1) e)
        ((count_ones-Reads _ 0).alike s t v w e);
}

pub new_passes-Reads : Reads new_passes
unfolding new_passes
new_passes-Reads = bind-Reads get_bit-Reads λ a.
    bind-Reads (if-Reads (leb 2 (1 + a)) get_bit-Reads (pure-Reads 0)) λ b.
      bind-Reads (if-Reads (leb 3 (1 + a + b)) (get_bits-Reads 2) (pure-Reads 0)) λ c.
        bind-Reads (if-Reads (leb 6 (1 + a + b + c)) (get_bits-Reads 5) (pure-Reads 0)) λ d.
          bind-Reads (if-Reads (leb 37 (1 + a + b + c + d)) (get_bits-Reads 7) (pure-Reads 0))
            λ e. pure-Reads _

no_cleanup-Reads : (newpasses : ℕ) (b : Block) → Reads (no_cleanup newpasses b)
unfolding no_cleanup
no_cleanup-Reads newpasses b = bind-Reads (get_bits-Reads _) λ bytes. pure-Reads _

with_cleanup-Reads : (passes newpasses : ℕ) (b : Block) → Reads (with_cleanup passes newpasses b)
unfolding with_cleanup
with_cleanup-Reads passes newpasses b = bind-Reads (get_bits-Reads _) λ bytes.
    if-Reads (bytes == 0) (bind-Reads (get_bits_from-Reads _ 0) λ longer. pure-Reads _) (
      if-Reads (not (is_mixed b)) (pure-Reads _) (
        if-Reads _ (pure-Reads _)
          (bind-Reads (get_bits_from-Reads _ bytes) λ longer. pure-Reads _)))

placeholder_segment-Reads : (newpasses : ℕ) (b : Block) → Reads (placeholder_segment newpasses b)
unfolding placeholder_segment
placeholder_segment-Reads newpasses b =
    if-Reads _ (no_cleanup-Reads newpasses b) (with_cleanup-Reads _ newpasses b)

original_segment-Reads : (newpasses : ℕ) (b : Block) → Reads (original_segment newpasses b)
unfolding original_segment
original_segment-Reads newpasses b =
    if-Reads (not (is_termall b || is_bypass b))
      (bind-Reads (get_bits-Reads (length_bits b newpasses)) λ bytes. pure-Reads _)
      (if-Reads (is_termall b) (bind-Reads (get_bits-Reads b.lblock) λ bytes. pure-Reads _)
        (bind-Reads (get_bits-Reads _) λ bytes. pure-Reads _))

pub first_segment-Reads : (newpasses : ℕ) (b : Block) → Reads (first_segment newpasses b)
unfolding first_segment ht_segment
first_segment-Reads newpasses b = if-Reads b.ht_plhd (placeholder_segment-Reads newpasses b) (
    if-Reads (is_ht b) (bind-Reads (get_bits-Reads _) λ bytes. pure-Reads _)
      (original_segment-Reads newpasses b))

ht_passes_left-Reads :
    (fuel newpasses next : ℕ) (b : Block) → Reads (ht_passes_left fuel newpasses next b)
unfolding ht_passes_left
ht_passes_left-Reads zero newpasses next b = if-Reads (newpasses == 0) (pure-Reads b) none-Reads
ht_passes_left-Reads (suc fuel) newpasses next b =
    if-Reads (newpasses == 0) (pure-Reads b)
      (bind-Reads (get_bits-Reads _) λ bytes. ht_passes_left-Reads fuel _ _ _)

original_passes_left-Reads :
    (fuel threshold newpasses next : ℕ) (b : Block)
    → Reads (original_passes_left fuel threshold newpasses next b)
unfolding original_passes_left
original_passes_left-Reads zero threshold newpasses next b =
    if-Reads (newpasses == 0) (pure-Reads _) none-Reads
original_passes_left-Reads (suc fuel) threshold newpasses next b =
    if-Reads (newpasses == 0) (pure-Reads _) (
      if-Reads (not (threshold == 0))
        (bind-Reads (get_bits-Reads _) λ bytes. original_passes_left-Reads fuel threshold _ _ _)
        (if-Reads (not (is_termall b)) (pure-Reads _) (
          bind-Reads (get_bits-Reads b.lblock)
            λ bytes. original_passes_left-Reads fuel threshold _ next _)))

pub passes_left-Reads : (newpasses : ℕ) (g : Segment) → Reads (passes_left newpasses g)
unfolding passes_left
passes_left-Reads newpasses g =
    if-Reads _
      (bind-Reads (ht_passes_left-Reads newpasses _ g.next_segment_passes _) λ b. pure-Reads _)
      (original_passes_left-Reads newpasses g.bypass_term_threshold _ g.next_segment_passes _)
