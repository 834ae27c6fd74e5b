-- ===== src/Packet/Geometry/Blocks.antt =====
-- packet_parser/j2k_packet.cpp, parepare_tcomp_structure: the part of a precinct in a subband, and its code
-- blocks, in unsigned 32-bit numbers. `cbw` and `cbh` are powers of 2, below 2 ^ 31.
use Prim.Native.Nat.{bit_and}
use native.Mathlib.Nat.{mul-div-le, lt-mul-div-succ, mul-add}
use rtp_decoder_test.Base.{
  ℕ, zero, suc, ◌+◌, ◌-◌, ◌*◌, ◌/◌, ◌%◌, ◌^◌, ◌<◌, ◌≡◌, List, [], ◌∷◌, ltb, ◌==◌, if◌then◌else◌,
  arith,
}
use rtp_decoder_test.Tile.Grid.{Area}
use rtp_decoder_test.Packet.Geometry.{both, horz, vert, uint_ceil, xob, yob}

-- srx and sry
unfoldable pub reduction_x : ℕ → ℕ
reduction_x direction = if direction == both then 2 else if direction == horz then 2 else 1

unfoldable pub reduction_y : ℕ → ℕ
reduction_y direction = if direction == both then 2 else if direction == vert then 2 else 1

-- pbx0, pby0, pbx1 and pby1
unfoldable pub part_of : ℕ → ℕ → Area → Area
part_of direction i prec = record {
  x0 = uint_ceil ((prec.x0 + 2 ^ 32 - xob i) % 2 ^ 32) (reduction_x direction);
  y0 = uint_ceil ((prec.y0 + 2 ^ 32 - yob i) % 2 ^ 32) (reduction_y direction);
  x1 = uint_ceil ((prec.x1 + 2 ^ 32 - xob i) % 2 ^ 32) (reduction_x direction);
  y1 = uint_ceil ((prec.y1 + 2 ^ 32 - yob i) % 2 ^ 32) (reduction_y direction);
}

-- ncbw and ncbh, for code blocks of the size `s`.
unfoldable pub block_count : ℕ → ℕ → ℕ → ℕ
block_count s x0 x1 = if ltb x0 x1 then (uint_ceil x1 s + 2 ^ 32 - x0 / s) % 2 ^ 32 else 0

-- The edges of the code block `k` in a direction. The upper one counts from `x1 / s`.
unfoldable pub block_low : ℕ → ℕ → ℕ → ℕ
block_low s x0 k = let e = s * (k + x0 / s) % 2 ^ 32 in if ltb e x0 then x0 else e

unfoldable pub block_high : ℕ → ℕ → ℕ → ℕ
block_high s x1 k = let e = s * (k + 1 + x1 / s) % 2 ^ 32 in if ltb x1 e then x1 else e

-- The code block `cb`; its column is `cb & ncbw`.
unfoldable pub block_area : Area → ℕ → ℕ → ℕ → ℕ → Area
block_area part cbw cbh ncbw cb = record {
  x0 = block_low cbw part.x0 (bit_and cb ncbw);
  y0 = block_low cbh part.y0 (cb / ncbw);
  x1 = block_high cbw part.x1 (bit_and cb ncbw);
  y1 = block_high cbh part.y1 (cb / ncbw);
}

-- The areas of `n` more code blocks from `cb` on.
unfoldable pub block_areas : Area → ℕ → ℕ → ℕ → ℕ → ℕ → List Area
block_areas part cbw cbh ncbw zero cb = []
block_areas part cbw cbh ncbw (suc n) cb =
    block_area part cbw cbh ncbw cb ∷ block_areas part cbw cbh ncbw n (cb + 1)

-- Beyond the last column or row of a part, counted from `x1 / s`.
block_high-end : (s x1 k : ℕ) → 0 < s → s * (k + 1) + x1 < 2 ^ 32 → block_high s x1 k ≡ x1
unfolding block_high
block_high-end s x1 k h small = ground (
  arith,
  mul-div-le x1 s,
  lt-mul-div-succ x1 h,
  mul-add s (k + 1) (x1 / s),
  mul-add s (x1 / s) 1,
  mul-add s k 1,
)

-- Every code block of a precinct reaches to the right and lower edges of the precinct's part in the
-- subband, whichever code block it is, where the numbers do not wrap around.
pub block_area-to_end :
    (part : Area) (cbw cbh ncbw cb : ℕ)
    → 0 < cbw
    → 0 < cbh
    → cbw * (bit_and cb ncbw + 1) + part.x1 < 2 ^ 32
    → cbh * (cb / ncbw + 1) + part.y1 < 2 ^ 32
    → ((block_area part cbw cbh ncbw cb).x1 ≡ part.x1)
      × ((block_area part cbw cbh ncbw cb).y1 ≡ part.y1)
unfolding block_area
block_area-to_end part cbw cbh ncbw cb w h x y =
    (block_high-end cbw part.x1 _ w x, block_high-end cbh part.y1 _ h y)
