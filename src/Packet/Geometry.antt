-- ===== src/Packet/Geometry.antt =====
-- packet_parser/j2k_packet.cpp, parepare_tcomp_structure: the rectangles of the resolutions, subbands and
-- precincts of a tile component. An int32_t coordinate that is negative is not modelled; a sum behind the
-- end of an int is the fault `none`, as is a division by 0. The exponents of the shifts are below 31.
pub mod Cuts
pub mod Blocks
pub mod Bands
use rtp_decoder_test.Base.{
  ℕ, ◌+◌, ◌-◌, ◌*◌, ◌/◌, ◌%◌, ◌^◌, ◌||◌, Option, none, some, ltb, leb, ◌==◌, if◌then◌else◌,
}
use rtp_decoder_test.Tile.Grid.{Area}

infixl 5 ◌>>=◌
abbrev pub ◌>>=◌ {ℓ κ} : {A : Type ℓ} {B : Type κ} → Option A → (A → Option B) → Option B
none >>= f = none
some a >>= f = f a

-- DWT_direction
abbrev pub both : ℕ
both = 1

abbrev pub horz : ℕ
horz = 2

abbrev pub vert : ℕ
vert = 3

-- The macro ceildiv_int on an int.
unfoldable pub int_ceil : ℕ → ℕ → Option ℕ
int_ceil a b = if b == 0 || leb (2 ^ 31) (a + b - 1) then none else some ((a + b - 1) / b)

-- The macro ceildiv_int on a uint32_t, where `b` is not 0.
unfoldable pub uint_ceil : ℕ → ℕ → ℕ
uint_ceil a b = (a + (b - 1)) % 2 ^ 32 / b

-- A rectangle whose edges are all divided and rounded up.
unfoldable pub scaled : ℕ → ℕ → Area → Option Area
scaled w h a = do
  x0 ← int_ceil a.x0 w
  y0 ← int_ceil a.y0 h
  x1 ← int_ceil a.x1 w
  y1 ← int_ceil a.y1 h
  some (record { x0 = x0; y0 = y0; x1 = x1; y1 = y1 })

-- npw and nph: how many precincts of the exponent `p` there are in a direction.
unfoldable pub precinct_count : ℕ → ℕ → ℕ → Option ℕ
precinct_count x0 x1 p =
    if ltb x0 x1 then (do n ← int_ceil x1 (2 ^ p); some (n - x0 / 2 ^ p)) else some 0

-- The edges of the precinct `k` in a direction.
unfoldable pub precinct_low : ℕ → ℕ → ℕ → ℕ
precinct_low x0 p k = let e = 2 ^ p * (k + x0 / 2 ^ p) % 2 ^ 32 in if ltb e x0 then x0 else e

unfoldable pub precinct_high : ℕ → ℕ → ℕ → ℕ → ℕ
precinct_high x0 x1 p k =
    let e = 2 ^ p * (k + 1 + x0 / 2 ^ p) % 2 ^ 32 in if ltb x1 e then x1 else e

-- The precinct `np` of a resolution that is `npw` precincts wide.
unfoldable pub precinct_area : Area → ℕ → ℕ → ℕ → ℕ → Area
precinct_area a npw prw prh np = record {
  x0 = precinct_low a.x0 prw (np % npw);
  y0 = precinct_low a.y0 prh (np / npw);
  x1 = precinct_high a.x0 a.x1 prw (np % npw);
  y1 = precinct_high a.y0 a.y1 prh (np / npw);
}

-- xob and yob
abbrev pub xob : ℕ → ℕ
xob i = i % 2

abbrev pub yob : ℕ → ℕ
yob i = i / 2

-- An edge of the subband at the level `nb`, from the edge of the tile component.
unfoldable pub band_edge : ℕ → ℕ → ℕ → ℕ
band_edge nb ob x = uint_ceil ((x + 2 ^ 32 - 2 ^ (nb - 1) * ob % 2 ^ 32) % 2 ^ 32) (2 ^ nb)

-- The subband `i` of a level that is split in both directions.
unfoldable pub both_area : Area → ℕ → ℕ → Area
both_area tcp nb i = record {
  x0 = band_edge nb (xob i) tcp.x0;
  y0 = band_edge nb (yob i) tcp.y0;
  x1 = band_edge nb (xob i) tcp.x1;
  y1 = band_edge nb (yob i) tcp.y1;
}

-- What is read of the resolution above: its direction and its rectangle.
pub record Above : Type 0 where
  pub direction : ℕ
  pub coord : Area

-- The subband of a resolution without a direction; the members of the resolution above that have not been
-- set are a fault.
unfoldable pub lowest_area : Area → Area → ℕ → Option Above → Option Area
lowest_area tcp rp nb none = none
lowest_area tcp rp nb (some up) = some (
    if up.direction == both then both_area tcp nb 0 else record {
      x0 = up.coord.x0;
      y0 = up.coord.y0;
      x1 = if up.direction == horz then up.coord.x1 - rp.x1 else up.coord.x1;
      y1 = if up.direction == vert then up.coord.y1 - rp.y1 else up.coord.y1;
    })

-- The subband `i` of a resolution with the rectangle `rp`.
unfoldable pub band_area : ℕ → Area → Area → ℕ → ℕ → Option Above → Option Area
band_area direction tcp rp nb i above =
    if direction == horz
    then scaled 2 1 rp
    else if direction == vert
    then scaled 1 2 rp
    else if direction == both
    then some (both_area tcp nb i)
    else lowest_area tcp rp nb above
