-- ===== src/Packet/FirstSegment.antt =====
-- packet_parser/j2k_packet.cpp, parse_packet_header: the first segment of a code block is read.
use rtp_decoder_test.Base.{
  ℕ, ◌+◌, ◌-◌, ◌/◌, ◌%◌, ◌^◌, ◌≤◌, ◌≡◌, ◌⊎◌, refl, inl, inr, Bool, true, false, not, ◌&&◌, ◌||◌,
  arith, ltb, leb, ◌==◌, if◌then◌else◌,
}
use rtp_decoder_test.Codestream.Total.{
  Total, Any, pure-Total, if-Total, bind-Total, get_bits_from-Total, get_bits-Total,
}
use rtp_decoder_test.Packet.Block.{
  Block, is_termall, is_bypass, is_ht, is_mixed, original_mode, doublings,
}
use rtp_decoder_test.Packet.Segments.{
  Segment, went_on, gave_up, cleanup, no_cleanup, with_cleanup, placeholder_segment, ht_segment,
  original_segment, first_segment,
}

-- The first segment has all passes, or no more than all, and the next one has one pass or two.
pub record IsProgress (newpasses : ℕ) (g : Segment) : Type 0 where
  pub within : g.segment_passes ≤ newpasses
  pub goes_on :
      (g.segment_passes ≡ newpasses) ⊎ ((1 ≤ g.next_segment_passes) × (g.next_segment_passes ≤ 2))

-- A first segment behind which the loops end.
pub record IsSound (newpasses : ℕ) (g : Segment) : Type 0 where
  pub sound : g.failed ≡ false → IsProgress newpasses g

all_passes : (newpasses next : ℕ) (b : Block) → IsSound newpasses (went_on b newpasses next)
all_passes newpasses next b = record {
  sound = λ e. record { within = omega arith; goes_on = inl refl };
}

no_passes : (newpasses : ℕ) (b : Block) → IsSound newpasses (gave_up b)
no_passes newpasses b = record { sound = λ e. absurd (cc e) }

-- The choice between two segments.
if-IsSound :
    (newpasses : ℕ) (c : Bool) (g h : Segment)
    → IsSound newpasses g
    → IsSound newpasses h
    → IsSound newpasses (if c then g else h)
if-IsSound newpasses true g h p q = p
if-IsSound newpasses false g h p q = q

no_cleanup-Total : (n : ℕ) (b : Block) → Total (IsSound n) (no_cleanup n b)
unfolding no_cleanup
no_cleanup-Total n b = bind-Total Any (IsSound n) (get_bits-Total _) λ bytes _.
    pure-Total (IsSound n) _ (
      if-IsSound n (bytes == 0) _ _ (all_passes n 0 b)
        (if-IsSound n (is_mixed b) _ _ (all_passes n 0 (original_mode b)) (no_passes n b)))

with_cleanup-Total :
    (passes n : ℕ) (b : Block) → passes ≤ n → Total (IsSound n) (with_cleanup passes n b)
unfolding with_cleanup
with_cleanup-Total passes n b l = bind-Total Any (IsSound n) (get_bits-Total _) λ bytes _.
    if-Total (IsSound n) (bytes == 0) _ _
      (λ _. bind-Total Any (IsSound n) (get_bits_from-Total _ 0) λ longer _.
        pure-Total (IsSound n) _ (
          if-IsSound n (longer == 0) _ _ (all_passes n 0 b)
            (if-IsSound n (is_mixed b) _ _ (all_passes n 0 _) (no_passes n b))))
      (λ _.
        if-Total (IsSound n) (not (is_mixed b)) _ _
          (λ _.
            pure-Total (IsSound n) _ (if-IsSound n (ltb bytes 2) _ _ (no_passes n b) (part bytes)))
          (λ _.
            if-Total (IsSound n)
              (ltb 3 b.lblock
                && ltb 1 bytes
                && bytes / 2 ^ ((b.lblock + doublings 7 2 passes) % 256 - 1) == 0)
              _ _ (λ _. pure-Total (IsSound n) _ (part bytes))
              (λ _.
                bind-Total Any (IsSound n) (get_bits_from-Total _ bytes)
                  λ longer _. pure-Total (IsSound n) _ (all_passes n 0 _))))
  where
    part : (bytes : ℕ) → IsSound n (cleanup passes bytes b)
    part bytes = record {
      sound = λ e. record { within = l; goes_on = inr (omega arith, omega arith) };
    }

ht_segment-Total : (n : ℕ) (b : Block) → 1 ≤ n → Total (IsSound n) (ht_segment n b)
unfolding ht_segment
ht_segment-Total n b l = bind-Total Any (IsSound n) (get_bits-Total _) λ bytes _.
    pure-Total (IsSound n) _ (record {
      sound = λ e. record {
        within = ground (arith, l);
        goes_on = inr (ground (arith, l), ground (arith, l));
      };
    })

original_segment-Total : (n : ℕ) (b : Block) → 1 ≤ n → Total (IsSound n) (original_segment n b)
unfolding original_segment
original_segment-Total n b l =
    if-Total (IsSound n) (not (is_termall b || is_bypass b)) _ _
      (λ _.
        bind-Total Any (IsSound n) (get_bits-Total _)
          λ bytes _. pure-Total (IsSound n) _ (all_passes n 0 b))
      (λ _.
        if-Total (IsSound n) (is_termall b) _ _
          (λ _. bind-Total Any (IsSound n) (get_bits-Total _) λ bytes _.
            pure-Total (IsSound n) _ (record {
              sound = λ e. record { within = l; goes_on = inr (omega arith, omega arith) };
            }))
          (λ _. bind-Total Any (IsSound n) (get_bits-Total _) λ bytes _.
            pure-Total (IsSound n) _ (record {
              sound = λ e. record {
                within = ground (arith, l);
                goes_on = inr (ground (arith, l), ground (arith, l));
              };
            })))

pub first_segment-Total : (n : ℕ) (b : Block) → 1 ≤ n → Total (IsSound n) (first_segment n b)
unfolding first_segment placeholder_segment
first_segment-Total n b l =
    if-Total (IsSound n) b.ht_plhd _ _
      (λ _.
        if-Total (IsSound n) (leb n ((b.npasses + n - 1) % 3)) _ _ (λ _. no_cleanup-Total n b)
          (λ _. with_cleanup-Total _ n b (omega arith)))
      (λ _.
        if-Total (IsSound n) (is_ht b) _ _ (λ _. ht_segment-Total n b l)
          (λ _. original_segment-Total n b l))
