-- ===== src/Packet/Segments.antt =====
-- packet_parser/j2k_packet.cpp, parse_packet_header: the lengths of the segments of a code block.
use rtp_decoder_test.Base.{
  ℕ, zero, suc, ◌+◌, ◌-◌, ◌*◌, ◌/◌, ◌%◌, ◌^◌, min, Bool, true, false, not, ◌&&◌, ◌||◌, none, ltb,
  leb, ◌==◌, if◌then◌else◌,
}
use rtp_decoder_test.Codestream.{M, pure, get_bits_from, packetheader_get_bits, ◌>>=◌}
use rtp_decoder_test.Packet.Block.{
  Block, is_bypass, is_termall, is_ht, is_mixed, original_mode, doublings, int_log2,
}

-- The state behind the first segment; `failed` is EXIT_FAILURE.
pub record Segment : Type 0 where
  pub failed : Bool
  pub block : Block
  pub segment_passes : ℕ
  pub next_segment_passes : ℕ
  pub bypass_term_threshold : ℕ

abbrev pub went_on : Block → ℕ → ℕ → Segment
went_on b passes next = record {
  failed = false;
  block = b;
  segment_passes = passes;
  next_segment_passes = next;
  bypass_term_threshold = 0;
}

abbrev pub gave_up : Block → Segment
gave_up b = record (went_on b 0 0) { failed = true }

-- A length in the original mode, in a block that can be mixed.
abbrev pub fall_back : ℕ → ℕ → Block → Segment
fall_back newpasses bytes b =
    if bytes == 0
    then went_on b newpasses 0
    else (if is_mixed b
        then went_on (record (original_mode b) { pass_length_0 = bytes }) newpasses 0
        else gave_up b)

abbrev pub cleanup : ℕ → ℕ → Block → Segment
cleanup passes bytes b = went_on (record b { ht_plhd = false; pass_length_0 = bytes }) passes 2

-- No cleanup pass: placeholder passes, or a block in the original mode, whose length is dropped.
unfoldable pub no_cleanup : ℕ → Block → M Segment
no_cleanup newpasses b = do
  bytes ← packetheader_get_bits ((b.lblock + doublings 7 2 newpasses) % 256)
  pure (
      if bytes == 0
      then went_on b newpasses 0
      else (if is_mixed b then went_on (original_mode b) newpasses 0 else gave_up b))

-- A cleanup pass may be in the first `passes` passes. The bits that a block in the original mode has more
-- of are read behind the first ones.
unfoldable pub with_cleanup : ℕ → ℕ → Block → M Segment
with_cleanup passes newpasses b = do
  let rounds = doublings 7 2 passes
  let bits_to_read = (b.lblock + rounds) % 256
  let more = doublings 7 (2 * 2 ^ rounds) newpasses
  bytes ← packetheader_get_bits bits_to_read
  if bytes == 0
      then (do longer ← get_bits_from more 0; pure (fall_back newpasses longer b))
      else (if not (is_mixed b)
          then pure (if ltb bytes 2 then gave_up b else cleanup passes bytes b)
          else (if ltb 3 b.lblock && ltb 1 bytes && bytes / 2 ^ (bits_to_read - 1) == 0
              then pure (cleanup passes bytes b)
              else (do
                longer ← get_bits_from more bytes
                pure (went_on (record (original_mode b) { pass_length_0 = longer }) newpasses 0))))

-- A block whose cleanup pass has not been seen.
unfoldable pub placeholder_segment : ℕ → Block → M Segment
placeholder_segment newpasses b =
    let href_passes = (b.npasses + newpasses - 1) % 3 in
    if leb newpasses href_passes
    then no_cleanup newpasses b
    else with_cleanup (newpasses - href_passes) newpasses b

-- The passes of the first segment behind a cleanup pass, and of the next one.
abbrev pub ht_passes : ℕ → ℕ → ℕ × ℕ
ht_passes newpasses npasses =
    if npasses % 3 == 0 then (1, 2) else (if ltb 1 newpasses then 3 - npasses % 3 else 1, 1)

abbrev pub bypass_passes : ℕ → ℕ → ℕ × ℕ
bypass_passes newpasses npasses =
    if ltb npasses 10
    then (min (10 - npasses) newpasses, 2)
    else (if ltb 1 newpasses then 2 - (npasses - 10) % 3 else 1, 1)

abbrev pub length_bits : Block → ℕ → ℕ
length_bits b passes = (b.lblock + int_log2 passes) % 256

unfoldable pub ht_segment : ℕ → Block → M Segment
ht_segment newpasses b = do
  let q = ht_passes newpasses b.npasses
  bytes ← packetheader_get_bits (length_bits b q.0)
  pure (went_on (record b { pass_length_1 = (b.pass_length_1 + bytes) % 2 ^ 32 }) q.0 q.1)

-- The lengths of the original mode are read and not stored.
unfoldable pub original_segment : ℕ → Block → M Segment
original_segment newpasses b =
    if not (is_termall b || is_bypass b)
    then (do bytes ← packetheader_get_bits (length_bits b newpasses); pure (went_on b newpasses 0))
    else (if is_termall b
        then (do bytes ← packetheader_get_bits b.lblock; pure (went_on b 1 1))
        else (do
          let q = bypass_passes newpasses b.npasses
          bytes ← packetheader_get_bits (length_bits b q.0)
          pure (record (went_on b q.0 q.1) { bypass_term_threshold = 10 })))

unfoldable pub first_segment : ℕ → Block → M Segment
first_segment newpasses b =
    if b.ht_plhd
    then placeholder_segment newpasses b
    else (if is_ht b then ht_segment newpasses b else original_segment newpasses b)

-- A difference in a uint32_t and in a uint8_t.
abbrev pub less_32 : ℕ → ℕ → ℕ
less_32 a b = (a + 2 ^ 32 - b) % 2 ^ 32

abbrev pub less_8 : ℕ → ℕ → ℕ
less_8 a b = (a + 2 ^ 8 - b) % 2 ^ 8

abbrev pub add_passes : ℕ → Block → Block
add_passes passes b = record b { npasses = (b.npasses + passes) % 256 }

-- The loop over the passes behind the first segment, where the block is an HT one; on fuel.
unfoldable pub ht_passes_left : ℕ → ℕ → ℕ → Block → M Block
ht_passes_left zero newpasses next b = if newpasses == 0 then pure b else (λ s. none)
ht_passes_left (suc fuel) newpasses next b =
    let passes = if ltb 1 newpasses then next else 1 in
    if newpasses == 0 then pure b else (do
      bytes ← packetheader_get_bits (length_bits b passes)
      ht_passes_left fuel (less_32 newpasses passes) (less_8 3 next)
          (add_passes passes (record b { pass_length_1 = (b.pass_length_1 + bytes) % 2 ^ 32 })))

-- The loop where it is not; `true` is EXIT_FAILURE.
unfoldable pub original_passes_left : ℕ → ℕ → ℕ → ℕ → Block → M (Bool × Block)
original_passes_left zero threshold newpasses next b =
    if newpasses == 0 then pure (false, b) else (λ s. none)
original_passes_left (suc fuel) threshold newpasses next b =
    let passes = if ltb 1 newpasses then next else 1 in
    if newpasses == 0
    then pure (false, b)
    else (if not (threshold == 0)
        then (do
          bytes ← packetheader_get_bits (length_bits b passes)
          original_passes_left fuel threshold (less_32 newpasses passes) (less_8 3 next)
              (add_passes passes b))
        else (if not (is_termall b) then pure (true, b) else (do
          bytes ← packetheader_get_bits b.lblock
          original_passes_left fuel threshold (less_32 newpasses 1) next (add_passes 1 b))))

-- What follows the first segment. A round takes a pass at least, so as many rounds as passes are enough
-- (Packet.Rounds).
unfoldable pub passes_left : ℕ → Segment → M (Bool × Block)
passes_left newpasses g =
    let b = add_passes g.segment_passes g.block in
    let rest = less_32 newpasses g.segment_passes in
    if is_ht g.block && not g.block.ht_plhd
    then (do done ← ht_passes_left newpasses rest g.next_segment_passes b; pure (false, done))
    else original_passes_left newpasses g.bypass_term_threshold rest g.next_segment_passes b
