-- ===== src/Packet/Returns.antt =====
-- packet_parser/j2k_packet.cpp, parse_packet_header: the headers of all code blocks are read.
use rtp_decoder_test.Base.{
  ℕ, zero, suc, ◌+◌, ◌-◌, ◌≤◌, ◌<◌, not, List, [], ◌∷◌, ◌==◌, arith, length,
}
use rtp_decoder_test.Codestream.{Codestream}
use rtp_decoder_test.Codestream.Place.{IsValid}
use rtp_decoder_test.Codestream.Total.{
  Returns, Total, Any, pure-Total, if-Total, bind-Total, get_bit-Total,
}
use rtp_decoder_test.Packet.Block.{Node, tag_rounds, tag_tree_decode}
use rtp_decoder_test.Packet.Read.{
  Cell, Precinct, nb_code_blocks, block_header, block_headers, band_headers,
}
use rtp_decoder_test.Packet.Rounds.{included-Total}

tag_rounds-Total : (n curval : ℕ) → Total Any (tag_rounds n curval)
unfolding tag_rounds
tag_rounds-Total zero curval = pure-Total Any _ tt
tag_rounds-Total (suc n) curval =
    bind-Total (λ b. b < 2) Any get_bit-Total
      λ b _.
        if-Total Any (b == 0) _ _ (λ _. tag_rounds-Total n (curval + 1)) (λ _. pure-Total Any _ tt)

tag_tree_decode-Total : (node : Node) (threshold : ℕ) → Total Any (tag_tree_decode node threshold)
unfolding tag_tree_decode
tag_tree_decode-Total node threshold =
    bind-Total Any Any (tag_rounds-Total (threshold - node.val) node.val) λ q _. pure-Total Any _ tt

block_header-Total : (cbs : ℕ) (c : Cell) → Total Any (block_header cbs c)
unfolding block_header
block_header-Total cbs c =
    bind-Total Any Any (tag_tree_decode-Total c.incl_node 1) λ (v, incl_node) _.
      if-Total Any (not (v == 0)) _ _ (λ _. pure-Total Any _ tt)
        (λ _. bind-Total Any Any (tag_tree_decode-Total c.zbp_node 14) λ (zbp, zbp_node) _.
          bind-Total Any Any (included-Total _) λ (failed, read) _. pure-Total Any _ tt)

block_headers-Total :
    (cbs n : ℕ) (cells : List Cell) → n ≤ length cells → Total Any (block_headers cbs n cells)
unfolding block_headers
block_headers-Total cbs zero cells l = pure-Total Any _ tt
block_headers-Total cbs (suc n) [] l = absurd (omega arith)
block_headers-Total cbs (suc n) (c ∷ cells) l =
    bind-Total Any Any (block_header-Total cbs c) λ (failed, read) _.
      if-Total Any failed _ _ (λ _. pure-Total Any _ tt)
        (λ _.
          bind-Total Any Any (block_headers-Total cbs n cells (omega arith))
            λ (stopped, rest) _. pure-Total Any _ tt)

-- Every band has `n` code blocks at least.
abbrev pub HasBlocks : ℕ → List (List Cell) → Type 0
HasBlocks n [] = Unit {0}
HasBlocks n (band ∷ bands) = (n ≤ length band) × HasBlocks n bands

bands-Total :
    (cbs n : ℕ) (bands : List (List Cell))
    → HasBlocks n bands
    → Total Any (band_headers cbs n bands)
unfolding band_headers
bands-Total cbs n [] h = pure-Total Any _ tt
bands-Total cbs n (band ∷ bands) h =
    bind-Total Any Any (block_headers-Total cbs n band h.0) λ (failed, read) _.
      if-Total Any failed _ _ (λ _. pure-Total Any _ tt)
        (λ _.
          bind-Total Any Any (bands-Total cbs n bands h.1) λ (stopped, rest) _. pure-Total Any _ tt)

-- Where every band of the precinct has the code blocks that the header is read for, all loops of the packet
-- header end, on every valid stream and for all states of the code blocks and styles: the headers of the
-- code blocks are read, or refused with EXIT_FAILURE, without a fault, and leave a valid stream.
pub band_headers-Returns :
    (cbs : ℕ) (prec : Precinct) (s : Codestream)
    → HasBlocks (nb_code_blocks prec) prec.bands
    → IsValid s
    → Returns Any (band_headers cbs (nb_code_blocks prec) prec.bands s)
band_headers-Returns cbs prec s h v =
    (bands-Total cbs (nb_code_blocks prec) prec.bands h).returns s v
