-- ===== src/Packet/Progression/Visit.antt =====
-- packet_parser/j2k_packet.cpp, prepare_precinct_structure: the body of its loops.
-- The precincts are pushed onto the vector of a tile that create has just made, which is empty; the
-- capacity that it reserves is left out. The exponents of a shift are below 32.
use rtp_decoder_test.Base.{
  ℕ, ◌+◌, ◌-◌, ◌*◌, ◌%◌, ◌^◌, Bool, true, false, not, ◌&&◌, ◌||◌, Option, none, some, List, [], ◌∷◌,
  ◌++◌, ◌==◌, if◌then◌else◌, get_elem?,
}
use rtp_decoder_test.Header.Coc.{CocMarker}
use rtp_decoder_test.Header.Dfs.{DfsMarker}
use rtp_decoder_test.Tile.State.{CrpStatus}

-- What the walk reads of a resolution (res_).
pub record Resolution : Type 0 where
  pub x0 : ℕ
  pub y0 : ℕ
  pub npw : ℕ

-- What the walk reads of a tile component (tcomp_).
pub record TileComponent : Type 0 where
  pub res : List Resolution
  pub sub_x : ℕ
  pub sub_y : ℕ

-- The arguments: the tile's rectangle, in unsigned 32-bit numbers, its components, their markers, and the
-- depths. There are 3 components; an array over the resolutions ends where the list does.
pub record Layout : Type 0 where
  pub x0 : ℕ
  pub y0 : ℕ
  pub x1 : ℕ
  pub y1 : ℕ
  pub tcomp : ℕ → TileComponent
  pub cocs : ℕ → CocMarker
  pub dfs : DfsMarker

-- The walk's state: `px` and `py` of each component and resolution, and the vector `crp`.
pub record Sequence : Type 0 where
  pub place : ℕ × ℕ → ℕ × ℕ
  pub crp : List CrpStatus

unfoldable pub same : ℕ × ℕ → ℕ × ℕ → Bool
same v w = v.0 == w.0 && v.1 == w.1

abbrev pub no_visits : Sequence
no_visits = record { place = λ v. (0, 0); crp = [] }

-- The place behind a precinct: along the row, and to the next row at its end.
unfoldable pub next_place : ℕ → ℕ × ℕ → ℕ × ℕ
next_place npw (px, py) =
    let px' = (px + 1) % 2 ^ 32 in if px' == npw then (0, (py + 1) % 2 ^ 32) else (px', py)

-- The number of the precinct at a place, as it is stored.
abbrev pub precinct_at : ℕ → ℕ × ℕ → ℕ
precinct_at npw (px, py) = (py * npw + px) % 2 ^ 32 % 2 ^ 16

unfoldable pub emit : ℕ → ℕ × ℕ → Sequence → Sequence
emit npw v s = record {
  place = λ w. if same w v then next_place npw (s.place v) else s.place w;
  crp = s.crp ++ (record { c = v.0 % 256; r = v.1 % 256; p = precinct_at npw (s.place v) } ∷ []);
}

-- One of the two tests of a position `x`: `sub` is the sub-sampling, `size` the exponent of the precincts,
-- `depth` the depth, `edge` the tile's edge and `res_edge` the resolution's. A division by 0 is a fault.
unfoldable pub starts_at : ℕ → ℕ → ℕ → ℕ → ℕ → ℕ → Option Bool
starts_at x sub size depth edge res_edge =
    let grid = sub * (2 ^ (size + depth) % 2 ^ 32) % 2 ^ 32 in
    if grid == 0
    then none
    else some (
        x % grid == 0
        || (x == edge && not (res_edge * 2 ^ depth % 2 ^ 32 % (2 ^ (size + depth) % 2 ^ 32) == 0)))

-- The body of the inner loop up to the `continue`s, for component `c` and resolution `r` at `(x, y)`:
-- whether a precinct starts there.
unfoldable pub starts : Layout → ℕ → ℕ → ℕ × ℕ → Option Bool
starts l x y (c, r) =
    let coc = l.cocs c in
    let tcp = l.tcomp c in
    elim (get_elem? tcp.res r) [
      | none ↦ none
      | some rp ↦ elim (get_elem? l.dfs.hor_depth (coc.style.nl - r)) [
        | none ↦ none
        | some xnl ↦ elim (get_elem? l.dfs.ver_depth (coc.style.nl - r)) [
          | none ↦ none
          | some ynl ↦ elim (get_elem? coc.style.pr r) [
            | none ↦ none
            | some (prw, prh) ↦ elim (starts_at x tcp.sub_x prw xnl l.x0 rp.x0) [
              | none ↦ none
              | some false ↦ some false
              | some true ↦ starts_at y tcp.sub_y prh ynl l.y0 rp.y0
            ]
          ]
        ]
      ]
    ]

-- The width of a resolution in precincts; `starts` has found the resolution before it is read.
unfoldable pub width : Layout → ℕ × ℕ → ℕ
width l (c, r) = elim (get_elem? (l.tcomp c).res r) [ none ↦ 0 | some rp ↦ rp.npw ]

-- The rest of the body of the inner loop.
unfoldable pub enter : Option Bool → ℕ → ℕ × ℕ → Sequence → Option Sequence
enter none npw v s = none
enter (some false) npw v s = some s
enter (some true) npw v s = some (emit npw v s)

abbrev pub visit : Layout → ℕ → ℕ → ℕ × ℕ → Sequence → Option Sequence
visit l x y v = enter (starts l x y v) (width l v) v

unfoldable pub visit_all : Layout → ℕ → ℕ → List (ℕ × ℕ) → Sequence → Option Sequence
visit_all l x y [] s = some s
visit_all l x y (v ∷ vs) s = elim (visit l x y v s) [ none ↦ none | some t ↦ visit_all l x y vs t ]
