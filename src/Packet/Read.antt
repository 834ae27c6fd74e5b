-- ===== src/Packet/Read.antt =====
-- packet_parser/j2k_packet.cpp, parse_packet_header and read_packet: the headers of the code blocks of a
-- precinct, and their bodies. The build does not define USE_SOP_EPH; messages and the log are left out.
use rtp_decoder_test.Base.{
  ℕ, zero, suc, ◌+◌, ◌*◌, ◌%◌, ◌^◌, Bool, true, false, not, Option, none, some, List, [], ◌∷◌, ltb,
  leb, ◌==◌, if◌then◌else◌, get_elem?,
}
use rtp_decoder_test.Codestream.{
  M, pure, get_bit, packetheader_flush_bits, take_contiguous, ◌>>=◌, ◌>>◌,
}
use rtp_decoder_test.Header.{checked}
use rtp_decoder_test.Packet.Block.{Node, Block, tag_tree_decode, getlblockinc, int_log2, new_passes}
use rtp_decoder_test.Packet.Segments.{first_segment, less_32, passes_left}

-- A code block with its leaves of the tag trees.
pub record Cell : Type 0 where
  pub incl_node : Node
  pub zbp_node : Node
  pub block : Block

-- What is read of a precinct (prec_).
pub record Precinct : Type 0 where
  pub ncbw : ℕ
  pub ncbh : ℕ
  pub bands : List (List Cell)

-- The passes and lengths of a code block that is included; `true` is EXIT_FAILURE.
unfoldable pub included : Block → M (Bool × Block)
included b = do
  newpasses ← new_passes
  if leb 100 (b.npasses + newpasses) then pure (true, b) else (do
    llen ← getlblockinc
    if ltb 16 (b.lblock + llen + int_log2 newpasses) then pure (true, b) else (do
      g ← first_segment newpasses (record b { lblock = (b.lblock + llen) % 256 })
      if g.failed then pure (true, g.block) else passes_left newpasses g))

abbrev pub with_total : Block → Block
with_total b = record b { total = (b.pass_length_0 + b.pass_length_1) % 2 ^ 32 }

-- The round of the inner loop for a code block; `cbs` is the style of its component.
unfoldable pub block_header : ℕ → Cell → M (Bool × Cell)
block_header cbs cell = do
  let b = record (cell.block) {
    modes = cbs;
    ht_plhd = if leb 64 cbs then true else cell.block.ht_plhd;
  }
  (v, incl_node) ← tag_tree_decode cell.incl_node 1
  if not (v == 0)
      then pure (false, record cell { incl_node = incl_node; block = with_total b })
      else (do
        (zbp, zbp_node) ← tag_tree_decode cell.zbp_node 14
        (failed, read) ← included (record b { incl = 1; zbp = zbp % 256; lblock = 3 })
        pure (
          failed,
          record {
            incl_node = incl_node;
            zbp_node = zbp_node;
            block = if failed then read else with_total read;
          },
        ))

-- The inner loop, over `n` code blocks of a band; one that the band does not have is a fault.
unfoldable pub block_headers : ℕ → ℕ → List Cell → M (Bool × List Cell)
block_headers cbs zero cells = pure (false, cells)
block_headers cbs (suc n) [] = λ s. none
block_headers cbs (suc n) (c ∷ cells) = do
  (failed, read) ← block_header cbs c
  if failed
      then pure (true, read ∷ cells)
      else (do (stopped, rest) ← block_headers cbs n cells; pure (stopped, read ∷ rest))

unfoldable pub band_headers : ℕ → ℕ → List (List Cell) → M (Bool × List (List Cell))
band_headers cbs n [] = pure (false, [])
band_headers cbs n (band ∷ bands) = do
  (failed, read) ← block_headers cbs n band
  if failed
      then pure (true, read ∷ bands)
      else (do (stopped, rest) ← band_headers cbs n bands; pure (stopped, read ∷ rest))

-- The start of the MEL stream, from the last 2 bytes of the first segment; an index that is not in the
-- body is a fault.
unfoldable pub store_body : Block → Option (List ℕ) → M Block
store_body b none = pure (record b { data_bytes = none })
store_body b (some bytes) =
    if b.total == 0 then pure (record b { data_bytes = some bytes }) else (do
      hi ← checked (get_elem? bytes (less_32 b.pass_length_0 1))
      lo ← checked (get_elem? bytes (less_32 b.pass_length_0 2))
      pure (record b { data_bytes = some bytes; scup = hi * 16 + lo % 16 }))

unfoldable pub block_body : Block → M Block
block_body b = do data_bytes ← take_contiguous b.total; store_body b data_bytes

unfoldable pub block_bodies : ℕ → List Cell → M (List Cell)
block_bodies zero cells = pure cells
block_bodies (suc n) [] = λ s. none
block_bodies (suc n) (c ∷ cells) = do
  b ← block_body c.block
  rest ← block_bodies n cells
  pure (record c { block = b } ∷ rest)

unfoldable pub band_bodies : ℕ → List (List Cell) → M (List (List Cell))
band_bodies n [] = pure []
band_bodies n (band ∷ bands) = do
  read ← block_bodies n band
  rest ← band_bodies n bands
  pure (read ∷ rest)

-- The number of code blocks of every band, in a uint32_t.
abbrev pub nb_code_blocks : Precinct → ℕ
nb_code_blocks prec = prec.ncbw * prec.ncbh % 2 ^ 32

unfoldable pub parse_packet_header : ℕ → Precinct → M (Bool × Precinct)
parse_packet_header cbs prec = do
  (failed, headers) ← band_headers cbs (nb_code_blocks prec) prec.bands
  if failed then pure (true, record prec { bands = headers }) else (do
    packetheader_flush_bits
    bodies ← band_bodies (nb_code_blocks prec) headers
    pure (false, record prec { bands = bodies }))

-- An empty packet is one bit.
unfoldable pub read_packet : ℕ → Precinct → M (Bool × Precinct)
read_packet cbs prec = do
  bit ← get_bit
  if bit == 0
      then (do packetheader_flush_bits; pure (false, prec))
      else parse_packet_header cbs prec
