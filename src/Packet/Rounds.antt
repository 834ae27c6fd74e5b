-- ===== src/Packet/Rounds.antt =====
-- packet_parser/j2k_packet.cpp, parse_packet_header: the loops over the passes end.
use rtp_decoder_test.Base.{
  ℕ, zero, suc, ◌+◌, ◌^◌, ◌≤◌, ◌<◌, ◌≡◌, ◌⊎◌, inl, inr, Bool, false, not, ◌&&◌, arith, ltb, leb,
  ◌==◌, if◌then◌else◌,
}
use rtp_decoder_test.Codestream.{pure, get_bit, packetheader_get_bits}
use rtp_decoder_test.Codestream.Total.{
  Total, Any, pure-Total, if-Total, bind-Total, Any-Total, get_bit-Total, get_bits-Total,
}
use rtp_decoder_test.Packet.Block.{Block, is_termall, is_ht, int_log2, new_passes}
use rtp_decoder_test.Packet.Segments.{
  Segment, less_32, less_8, ht_passes_left, original_passes_left, passes_left,
}
use rtp_decoder_test.Packet.Read.{included}
use rtp_decoder_test.Packet.Lblock.{getlblockinc-Total}
use rtp_decoder_test.Packet.FirstSegment.{IsProgress, IsSound, first_segment-Total}

-- Fuel for the passes that are left.
record Enough (fuel left next : ℕ) : Type 0 where
  fuelled : left ≤ fuel
  small : left < 2 ^ 32
  steps : (left ≡ 0) ⊎ ((1 ≤ next) × (next ≤ 2))

-- A round of the loops takes one pass or two, and no more than there are.
Enough-step :
    (fuel left next : ℕ)
    → Enough (suc fuel) left next
    → (left == 0) ≡ false
    → Enough fuel (less_32 left (if ltb 1 left then next else 1)) (less_8 3 next)
Enough-step fuel left next h e = elim h.steps [
  | inl over ↦ absurd (ground (arith, over, e))
  | inr (low, high) ↦ record {
    fuelled = ground (arith, low, high, h.fuelled, h.small, e);
    small = ground (arith, low, high, h.small, e);
    steps = inr (omega (arith, low, high), omega (arith, low, high));
  }
]

Enough-one :
    (fuel left next : ℕ)
    → Enough (suc fuel) left next
    → (left == 0) ≡ false
    → Enough fuel (less_32 left 1) next
Enough-one fuel left next h e = elim h.steps [
  | inl over ↦ absurd (ground (arith, over, e))
  | inr steps ↦ record {
    fuelled = ground (arith, h.fuelled, h.small, e);
    small = ground (arith, h.small, e);
    steps = inr steps;
  }
]

ht_passes_left-Total :
    (fuel left next : ℕ) (b : Block)
    → Enough fuel left next
    → Total Any (ht_passes_left fuel left next b)
unfolding ht_passes_left
ht_passes_left-Total zero left next b h =
    if-Total Any (left == 0) _ _ (λ _. pure-Total Any b tt)
      (λ e. absurd (ground (arith, h.fuelled)))
ht_passes_left-Total (suc fuel) left next b h =
    if-Total Any (left == 0) _ _ (λ _. pure-Total Any b tt)
      (λ e.
        bind-Total Any Any (get_bits-Total _)
          λ bytes _. ht_passes_left-Total fuel _ _ _ (Enough-step fuel left next h e))

original_passes_left-Total :
    (fuel threshold left next : ℕ) (b : Block)
    → Enough fuel left next
    → Total Any (original_passes_left fuel threshold left next b)
unfolding original_passes_left
original_passes_left-Total zero threshold left next b h =
    if-Total Any (left == 0) _ _ (λ _. pure-Total Any _ tt)
      (λ e. absurd (ground (arith, h.fuelled)))
original_passes_left-Total (suc fuel) threshold left next b h =
    if-Total Any (left == 0) _ _ (λ _. pure-Total Any _ tt)
      λ e.
        if-Total Any (not (threshold == 0)) _ _
          (λ _. bind-Total Any Any (get_bits-Total _) λ bytes _.
            original_passes_left-Total fuel threshold _ _ _ (Enough-step fuel left next h e))
          (λ _.
            if-Total Any (not (is_termall b)) _ _ (λ _. pure-Total Any _ tt)
              (λ _. bind-Total Any Any (get_bits-Total b.lblock) λ bytes _.
                original_passes_left-Total fuel threshold _ next _ (Enough-one fuel left next h e)))

IsProgress-Enough :
    (n : ℕ) (g : Segment)
    → n < 100
    → IsProgress n g
    → Enough n (less_32 n g.segment_passes) g.next_segment_passes
IsProgress-Enough n g l h = record {
  fuelled = omega (arith, h.within);
  small = omega arith;
  steps = elim h.goes_on [ inl all ↦ inl (omega (arith, all)) | inr some_left ↦ inr some_left ];
}

passes_left-Total : (n : ℕ) (g : Segment) → n < 100 → IsProgress n g → Total Any (passes_left n g)
unfolding passes_left
passes_left-Total n g l h =
    if-Total Any (is_ht g.block && not g.block.ht_plhd) _ _
      (λ _.
        bind-Total Any Any (ht_passes_left-Total n _ _ _ (IsProgress-Enough n g l h))
          λ b _. pure-Total Any _ tt)
      (λ _. original_passes_left-Total n g.bypass_term_threshold _ _ _ (IsProgress-Enough n g l h))

new_passes-Total : Total (λ n. 1 ≤ n) new_passes
unfolding new_passes
new_passes-Total =
    bind-Total (λ b. b < 2) P get_bit-Total
      λ a _. bind-Total Any P (bit (leb 2 (1 + a))) λ b _.
        bind-Total Any P (bits (leb 3 (1 + a + b)) 2) λ c _.
          bind-Total Any P (bits (leb 6 (1 + a + b + c)) 5) λ d _.
            bind-Total Any P (bits (leb 37 (1 + a + b + c + d)) 7)
              λ e _. pure-Total P _ (omega arith)
  where
    P : ℕ → Type 0
    P n = 1 ≤ n

    bits : (c : Bool) (n : ℕ) → Total Any (if c then packetheader_get_bits n else pure 0)
    bits c n = if-Total Any c _ _ (λ _. get_bits-Total n) (λ _. pure-Total Any 0 tt)

    bit : (c : Bool) → Total Any (if c then get_bit else pure 0)
    bit c =
        if-Total Any c _ _ (λ _. Any-Total (λ b. b < 2) get_bit-Total) (λ _. pure-Total Any 0 tt)

-- The passes and lengths of a code block are read without a fault.
pub included-Total : (b : Block) → Total Any (included b)
unfolding included
included-Total b =
    bind-Total (λ n. 1 ≤ n) Any new_passes-Total
      λ n l.
        if-Total Any (leb 100 (b.npasses + n)) _ _ (λ _. pure-Total Any _ tt)
          λ few. bind-Total Any Any getlblockinc-Total λ llen _.
            if-Total Any (ltb 16 (b.lblock + llen + int_log2 n)) _ _ (λ _. pure-Total Any _ tt)
              (λ _. bind-Total (IsSound n) Any (first_segment-Total n _ l) λ g sound.
                if-Total Any g.failed _ _ (λ _. pure-Total Any _ tt)
                  (λ went_on. passes_left-Total n g (ground (arith, few)) (sound.sound went_on)))
