-- ===== src/Packet/Geometry/Cuts.antt =====
-- packet_parser/j2k_packet.cpp, parepare_tcomp_structure:
-- the precincts of a resolution in a direction.
use native.Mathlib.Nat.{mul-div-le, lt-mul-div-succ, mul-le-mul_left, mul-add, one-le-pow}
use rtp_decoder_test.Base.{
  ℕ, ◌+◌, ◌-◌, ◌*◌, ◌/◌, ◌%◌, ◌^◌, ◌≤◌, ◌<◌, ◌≡◌, some, ltb, if◌then◌else◌, lt→ltb, refl, arith,
}
use rtp_decoder_test.Packet.Geometry.{int_ceil, precinct_count, precinct_low, precinct_high}

-- `n` intervals from `x0` to `x1`, each behind the one before, and none longer than `size`.
pub record IsCut (low high : ℕ → ℕ) (x0 x1 size n : ℕ) : Type 0 where
  pub not_none : 0 < n
  pub from_start : low 0 ≡ x0
  pub to_end : high (n - 1) ≡ x1
  pub joined : (k : ℕ) → k + 1 < n → high k ≡ low (k + 1)
  pub not_empty : (k : ℕ) → k < n → low k < high k
  pub narrow : (k : ℕ) → k < n → high k ≤ low k + size

-- The grid of the multiples of `q`, where `m` is the cell of `x0` and `e` the one behind `x1`.
record IsGrid (q m e x0 x1 : ℕ) : Type 0 where
  pub below : q * m ≤ x0
  pub above : x0 < q * m + q
  pub covers : x1 ≤ q * e
  pub tight : q * e < x1 + q
  pub small : x1 + q < 2 ^ 31

-- The line `k` of the grid.
record Line (q m e k : ℕ) : Type 0 where
  pub upper : q * (k + m) + q ≤ q * e
  pub next : q * (k + 1 + m) ≡ q * (k + m) + q
  pub base : q * m ≤ q * (k + m)

Line-of : (q m e k : ℕ) → k + m < e → Line q m e k
Line-of q m e k h = record {
  upper = grind (arith, mul-le-mul_left);
  next = grind (arith, mul-add);
  base = mul-le-mul_left q (omega arith);
}

-- The edges over a grid, as precinct_low and precinct_high compute them.
abbrev low_at : ℕ → ℕ → ℕ → ℕ → ℕ
low_at q m x0 k = let s = q * (k + m) % 2 ^ 32 in if ltb s x0 then x0 else s

abbrev high_at : ℕ → ℕ → ℕ → ℕ → ℕ
high_at q m x1 k = let s = q * (k + 1 + m) % 2 ^ 32 in if ltb x1 s then x1 else s

module _ (q m e x0 x1 : ℕ) (g : IsGrid q m e x0 x1) (nonempty : x0 < x1) where
  low-first : low_at q m x0 0 ≡ x0
  low-first = ground (arith, g.below, g.small)

  m-lt-e : m < e
  m-lt-e = grind (arith, mul-le-mul_left, g.below, g.covers)

  high-last : (k : ℕ) → k + 1 + m ≡ e → high_at q m x1 k ≡ x1
  high-last k h = rw h (ground (arith, g.covers, g.tight, g.small))

  high-low : (k : ℕ) → k + 1 + m < e → high_at q m x1 k ≡ low_at q m x0 (k + 1)
  high-low k h =
      let l = Line-of q m e k (omega arith) in
      let l' = Line-of q m e (k + 1) h in
      ground (arith, g.above, g.tight, g.small, l.next, l.base, l'.upper)

  low-lt-high : (k : ℕ) → k + m < e → low_at q m x0 k < high_at q m x1 k
  low-lt-high k h =
      let l = Line-of q m e k h in
      ground (arith, g.below, g.above, g.tight, g.small, l.next, l.base, l.upper)

  high-le-low : (k : ℕ) → k + m < e → high_at q m x1 k ≤ low_at q m x0 k + q
  high-le-low k h =
      let l = Line-of q m e k h in
      ground (arith, g.below, g.above, g.tight, g.small, l.next, l.base, l.upper)

-- The grid of the precincts of the exponent `p`.
IsGrid-of :
    (x0 x1 p : ℕ)
    → x1 + 2 ^ p < 2 ^ 31
    → IsGrid (2 ^ p) (x0 / 2 ^ p) ((x1 + 2 ^ p - 1) / 2 ^ p) x0 x1
IsGrid-of x0 x1 p s =
    let q = 2 ^ p in
    let pos : 0 < q = one-le-pow _ _ (omega arith) in
    let e = (x1 + q - 1) / q in
    record {
      below = mul-div-le x0 q;
      above = omega (arith, lt-mul-div-succ x0 pos, mul-add q (x0 / q) 1);
      covers = omega (arith, lt-mul-div-succ (x1 + q - 1) pos, mul-add q e 1);
      tight = omega (arith, mul-div-le (x1 + q - 1) q);
      small = s;
    }

pub int_ceil_lem : (a b : ℕ) → 0 < b → a + b < 2 ^ 31 → int_ceil a b ≡ some ((a + b - 1) / b)
unfolding int_ceil
int_ceil_lem a b h s = ground arith

-- The precincts of a resolution in one direction: where its edges are below 2 ^ 31 less a precinct and it
-- is not empty, the number of precincts is computed without a fault, the first precinct starts at the low
-- edge, the last ends at the high edge, each other one ends where the next starts, and none is empty or
-- longer than 2 ^ p.
pub precincts-IsCut :
    (x0 x1 p : ℕ)
    → x0 < x1
    → x1 + 2 ^ p < 2 ^ 31
    → (n : ℕ) × (precinct_count x0 x1 p ≡ some n)
      × IsCut (precinct_low x0 p) (precinct_high x0 x1 p) x0 x1 (2 ^ p) n
unfolding precinct_count precinct_low precinct_high
precincts-IsCut x0 x1 p h s =
    let q = 2 ^ p in
    let m = x0 / q in
    let e = (x1 + q - 1) / q in
    let g = IsGrid-of x0 x1 p s in
    let pos : 0 < q = one-le-pow _ _ (omega arith) in
    let first = m-lt-e q m e x0 x1 g h in
    (
      e - m,
      rw (lt→ltb x0 x1 h, int_ceil_lem x1 q pos (omega arith)) refl,
      record {
        not_none = omega arith;
        from_start = low-first q m e x0 x1 g h;
        to_end = high-last q m e x0 x1 g h (e - m - 1) (omega arith);
        joined = λ k l. high-low q m e x0 x1 g h k (omega arith);
        not_empty = λ k l. low-lt-high q m e x0 x1 g h k (omega arith);
        narrow = λ k l. high-le-low q m e x0 x1 g h k (omega arith);
      },
    )
