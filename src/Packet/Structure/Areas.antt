-- ===== src/Packet/Structure/Areas.antt =====
-- packet_parser/j2k_packet.cpp, parepare_tcomp_structure:
-- the rectangles of resolutions and subbands.
use native.Mathlib.Nat.{div-le_self}
use rtp_decoder_test.Base.{
  ℕ, zero, suc, ◌+◌, ◌-◌, ◌/◌, ◌^◌, ◌≤◌, ◌<◌, ◌≡◌, ◌⊎◌, inl, inr, Option, none, some, false, [],
  ◌==◌, Bool-cases, arith,
}
use rtp_decoder_test.Tile.Grid.{Area}
use rtp_decoder_test.Packet.Geometry.{
  both, horz, vert, Above, int_ceil, scaled, band_area, lowest_area,
}
use rtp_decoder_test.Packet.Geometry.Cuts.{int_ceil_lem}
use rtp_decoder_test.Packet.Structure.{band_areas, band_number}
use rtp_decoder_test.Packet.Structure.Gives.{Gives, Anything, some-Gives, bind-Gives}

-- The edges are below a bound.
pub record IsBelow (bound : ℕ) (a : Area) : Type 0 where
  pub x0 : a.x0 < bound
  pub y0 : a.y0 < bound
  pub x1 : a.x1 < bound
  pub y1 : a.y1 < bound

int_ceil-Gives :
    (a b bound : ℕ)
    → a < bound
    → 0 < b
    → b ≤ 32
    → bound < 2 ^ 30 + 2 ^ 10
    → Gives (λ v. v < bound + 32) (int_ceil a b)
int_ceil-Gives a b bound h p u s = record {
  value = (a + b - 1) / b;
  is_some = int_ceil_lem a b p (omega arith);
  holds = omega (arith, div-le_self (a + b - 1) b);
}

pub scaled-Gives :
    (w h : ℕ) (a : Area) (bound : ℕ)
    → (0 < w) × (w ≤ 32)
    → (0 < h) × (h ≤ 32)
    → IsBelow bound a
    → bound < 2 ^ 30 + 2 ^ 10
    → Gives (IsBelow (bound + 32)) (scaled w h a)
unfolding scaled
scaled-Gives w h a bound (w0, w1) (h0, h1) i s =
    bind-Gives _ _ (int_ceil-Gives a.x0 w bound i.x0 w0 w1 s) λ x0 b0.
      bind-Gives _ _ (int_ceil-Gives a.y0 h bound i.y0 h0 h1 s) λ y0 b1.
        bind-Gives _ _ (int_ceil-Gives a.x1 w bound i.x1 w0 w1 s) λ x1 b2.
          bind-Gives _ _ (int_ceil-Gives a.y1 h bound i.y1 h0 h1 s)
            λ y1 b3. some-Gives _ _ (record { x0 = b0; y0 = b1; x1 = b2; y1 = b3 })

-- A direction, or a resolution above.
abbrev pub IsKnown : ℕ → Option Above → Type 0
IsKnown direction above = ((1 ≤ direction) × (direction ≤ 3)) ⊎ ((up : Above) × (above ≡ some up))

lowest_area-Gives :
    (tcp rp : Area) (nb : ℕ) (above : Option Above) (up : Above)
    → above ≡ some up
    → Gives Anything (lowest_area tcp rp nb above)
unfolding lowest_area
lowest_area-Gives tcp rp nb none up e = cc
lowest_area-Gives tcp rp nb (some a) up e = some-Gives Anything _ tt

half-Gives :
    (w h : ℕ) (rp : Area) (bound : ℕ)
    → (0 < w) × (w ≤ 32)
    → (0 < h) × (h ≤ 32)
    → IsBelow bound rp
    → bound < 2 ^ 30 + 2 ^ 10
    → Gives Anything (scaled w h rp)
half-Gives w h rp bound p q i s =
    let g = scaled-Gives w h rp bound p q i s in
    record { value = g.value; is_some = g.is_some; holds = tt }

band_area-Gives :
    (direction : ℕ) (tcp rp : Area) (nb i : ℕ) (above : Option Above)
    → IsKnown direction above
    → IsBelow (2 ^ 30 + 32) rp
    → Gives Anything (band_area direction tcp rp nb i above)
unfolding band_area
band_area-Gives direction tcp rp nb i above k b = elim (Bool-cases (direction == horz)) [
  | inl h ↦ rw h (
      half-Gives 2 1 rp (2 ^ 30 + 32) (omega arith, omega arith) (omega arith, omega arith) b
        (omega arith))
  | inr nh ↦ rw nh (elim (Bool-cases (direction == vert)) [
    | inl v ↦ rw v (
        half-Gives 1 2 rp (2 ^ 30 + 32) (omega arith, omega arith) (omega arith, omega arith) b
          (omega arith))
    | inr nv ↦ rw nv (elim (Bool-cases (direction == both)) [
      | inl d ↦ rw d (some-Gives Anything _ tt)
      | inr nd ↦ rw nd (other k nh nv nd)
    ])
  ])
]
  where
    other :
        IsKnown direction above
        → (direction == horz) ≡ false
        → (direction == vert) ≡ false
        → (direction == both) ≡ false
        → Gives Anything (lowest_area tcp rp nb above)
    other (inl (l, u)) h v d = absurd (ground arith)
    other (inr (up, e)) h v d = lowest_area-Gives tcp rp nb above up e

pub band_areas-Gives :
    (direction : ℕ) (tcp rp : Area) (nb num : ℕ) (above : Option Above) (n b : ℕ)
    → IsKnown direction above
    → IsBelow (2 ^ 30 + 32) rp
    → Gives Anything (band_areas direction tcp rp nb num above n b)
unfolding band_areas
band_areas-Gives direction tcp rp nb num above zero b k i = some-Gives Anything [] tt
band_areas-Gives direction tcp rp nb num above (suc n) b k i =
    bind-Gives Anything Anything (band_area-Gives direction tcp rp nb (band_number num b) above k i)
      λ area _.
        bind-Gives Anything Anything (band_areas-Gives direction tcp rp nb num above n (b + 1) k i)
          λ rest _. some-Gives Anything _ tt
