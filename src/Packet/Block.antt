-- ===== src/Packet/Block.antt =====
-- packet_parser/j2k_packet.cpp, tag_tree_decode, getlblockinc and the head of a code block in
-- parse_packet_header. The messages that are printed are left out.
use rtp_decoder_test.Base.{
  ℕ, zero, suc, ◌+◌, ◌-◌, ◌*◌, ◌/◌, ◌%◌, ◌^◌, Bool, true, false, not, Option, List, leb, ◌==◌,
  if◌then◌else◌, length, flatten,
}
use rtp_decoder_test.Codestream.{M, pure, get_bit, packetheader_get_bits, ◌>>=◌}

-- A leaf of a tag tree; its parent and temp_val are not read. Its value, which is cast to an int, is below
-- 2 ^ 31.
pub record Node : Type 0 where
  pub val : ℕ
  pub vis : ℕ

-- A code block (blk_) without its rectangle. `data` are the bytes that the pointer addresses, and nothing
-- for nullptr.
pub record Block : Type 0 where
  pub data_bytes : Option (List ℕ)
  pub pass_length_0 : ℕ
  pub pass_length_1 : ℕ
  pub total : ℕ
  pub scup : ℕ
  pub modes : ℕ
  pub incl : ℕ
  pub lblock : ℕ
  pub zbp : ℕ
  pub npasses : ℕ
  pub ht_plhd : Bool

-- The bits of `modes`.
abbrev pub is_bypass : Block → Bool
is_bypass b = not (b.modes % 2 == 0)

abbrev pub is_termall : Block → Bool
is_termall b = not (b.modes / 4 % 2 == 0)

abbrev pub is_ht : Block → Bool
is_ht b = not (b.modes / 64 % 2 == 0)

abbrev pub is_mixed : Block → Bool
is_mixed b = not (b.modes / 128 % 2 == 0)

-- The block without CMODE_HT, and no placeholder.
abbrev pub original_mode : Block → Block
original_mode b = record b { modes = b.modes - 64 * (b.modes / 64 % 2); ht_plhd = false }

-- The loop of tag_tree_decode for the values that are left below the threshold.
unfoldable pub tag_rounds : ℕ → ℕ → M (ℕ × Bool)
tag_rounds zero curval = pure (curval, false)
tag_rounds (suc n) curval = do
  b ← get_bit
  if b == 0 then tag_rounds n (curval + 1) else pure (curval, true)

unfoldable pub tag_tree_decode : Node → ℕ → M (ℕ × Node)
tag_tree_decode node threshold = do
  (curval, hit) ← tag_rounds (threshold - node.val) node.val
  pure (curval, record { val = curval; vis = if hit then (node.vis + 1) % 2 ^ 32 else node.vis })

-- The loop of getlblockinc, on fuel.
unfoldable pub count_ones : ℕ → ℕ → M ℕ
count_ones zero res = λ s. Option.none
count_ones (suc fuel) res = do b ← get_bit; if b == 0 then pure res else count_ones fuel (res + 1)

-- A round takes a bit of the register or of the bytes behind the position, and behind the end all bits
-- are 0; so the fuel is enough (Packet.Lblock).
unfoldable pub getlblockinc : M ℕ
getlblockinc s = count_ones (8 * length (flatten s.chunks) + s.bits + 1) 0 s

-- How often a bound is doubled until it is above `x`: for a bound of 2 the logarithm, `int_log2`, where the
-- rounds are not used up. For passes 7 rounds are enough, as there are fewer than 100 of them.
unfoldable pub doublings : ℕ → ℕ → ℕ → ℕ
doublings zero bound x = 0
doublings (suc n) bound x =
    let rest = doublings n (bound * 2) x in if leb bound x then suc rest else 0

unfoldable pub int_log2 : ℕ → ℕ
int_log2 x = doublings 31 2 x

-- The number of new passes.
unfoldable pub new_passes : M ℕ
new_passes = do
  a ← get_bit
  b ← if leb 2 (1 + a) then get_bit else pure 0
  c ← if leb 3 (1 + a + b) then packetheader_get_bits 2 else pure 0
  d ← if leb 6 (1 + a + b + c) then packetheader_get_bits 5 else pure 0
  e ← if leb 37 (1 + a + b + c + d) then packetheader_get_bits 7 else pure 0
  pure (1 + a + b + c + d + e)
