-- ===== src/Tile/Create.antt =====
-- packet_parser/tile_handler.hpp, create: the components of each tile, their structures and the
-- progression. The main header has been parsed, and stackAlloc is taken to have room. `none` is a fault: a
-- failing assert, a division by 0, or a read of what has not been set.
use mathlib.Core.List.{map}
use rtp_decoder_test.Base.{
  ℕ, zero, suc, ◌+◌, ◌-◌, ◌%◌, ◌^◌, Option, none, some, List, [], ◌∷◌, ltb, ◌==◌, if◌then◌else◌,
  get_elem?, get_or, write?,
}
use rtp_decoder_test.Header.{SizMarker}
use rtp_decoder_test.Header.Coc.{CocMarker}
use rtp_decoder_test.Header.Dfs.{DfsMarker}
use rtp_decoder_test.Tile.State.{CrpStatus, build_crp_idx_by_pid}
use rtp_decoder_test.Tile.Grid.{Area, create_areas}
use rtp_decoder_test.Packet.Geometry.{scaled, ◌>>=◌}
use rtp_decoder_test.Packet.Structure.{Memory, Res, parepare_tcomp_structure}
use rtp_decoder_test.Packet.Lookup.{Tcomp}
use rtp_decoder_test.Packet.Progression.Visit.{Resolution, TileComponent, Layout}
use rtp_decoder_test.Packet.Progression.Walk.{done, unsupported, prepare_precinct_structure}

-- tile_, as create leaves it.
pub record NewTile : Type 0 where
  pub idx : ℕ
  pub coord : Area
  pub tcomp : List Tcomp
  pub crp : List CrpStatus

-- The number of levels of a component, which a DFS marker gives where it is above 32.
unfoldable pub settle_levels : DfsMarker → CocMarker → Option CocMarker
settle_levels dfs coc =
    if ltb 32 coc.style.nl
    then if dfs.idx == (coc.style.nl + (2 ^ 32 - 128)) % 2 ^ 32
      then some (record coc { style = record (coc.style) { nl = dfs.idfs % 256 } })
      else none
    else some coc

-- The component `c` of a tile, and the markers with its number of levels.
unfoldable pub new_component :
    Memory → SizMarker → DfsMarker → Area → ℕ → List CocMarker → Option (Tcomp × List CocMarker)
new_component memory siz dfs area c cocs = do
  sizes ← get_elem? siz.components c
  coord ← scaled sizes.xrsiz sizes.yrsiz area
  marker ← get_elem? cocs c
  coc ← settle_levels dfs marker
  settled ← write? cocs c coc
  res ← parepare_tcomp_structure memory coord coc dfs
  some (
    record { idx = c; coord = coord; sub_x = sizes.xrsiz; sub_y = sizes.yrsiz; res = res },
    settled,
  )

-- The loop over the components, for `n` more of them from `c` on.
unfoldable pub new_components :
    (ℕ → Memory)
    → SizMarker
    → DfsMarker
    → Area
    → ℕ
    → ℕ
    → List CocMarker
    → Option (List Tcomp × List CocMarker)
new_components memory siz dfs area zero c cocs = some ([], cocs)
new_components memory siz dfs area (suc n) c cocs = do
  first ← new_component (memory c) siz dfs area c cocs
  rest ← new_components memory siz dfs area n (c + 1) first.1
  some (first.0 ∷ rest.0, rest.1)

-- What prepare_precinct_structure reads of a tile.
unfoldable pub walked : Res → Resolution
walked rp = record { x0 = rp.coord.x0; y0 = rp.coord.y0; npw = rp.npw }

unfoldable pub walked_component : Tcomp → TileComponent
walked_component tcp = record { res = map walked tcp.res; sub_x = tcp.sub_x; sub_y = tcp.sub_y }

-- The walk reads 3 components, whatever the number of components is.
unfoldable pub layout_of : Area → List Tcomp → List CocMarker → DfsMarker → Option Layout
layout_of area tcomps cocs dfs = do
  t0 ← get_elem? tcomps 0
  t1 ← get_elem? tcomps 1
  t2 ← get_elem? tcomps 2
  c0 ← get_elem? cocs 0
  c1 ← get_elem? cocs 1
  c2 ← get_elem? cocs 2
  some (record {
    x0 = area.x0;
    y0 = area.y0;
    x1 = area.x1;
    y1 = area.y1;
    tcomp = λ c. walked_component (get_or (t0 ∷ t1 ∷ t2 ∷ []) c t2);
    cocs = λ c. get_or (c0 ∷ c1 ∷ c2 ∷ []) c c2;
    dfs = dfs;
  })

-- How create ends: ready, with the tiles, the table of positions and the markers, or refused.
pub data Created : Type 0 where
  ready : List NewTile → List (List ℕ) → List CocMarker → Created
  refused : Created

-- The table is built from the first tile.
unfoldable pub first_table : List NewTile → List (List ℕ)
first_table [] = []
first_table (t ∷ ts) = build_crp_idx_by_pid t.crp

-- The loop over the tiles, where `made` are the ones before; an order that is not supported refuses all.
unfoldable pub new_tiles :
    ℕ
    → (ℕ → ℕ → Memory)
    → SizMarker
    → DfsMarker
    → ℕ
    → List Area
    → List CocMarker
    → Option (Option (List NewTile × List CocMarker))
new_tiles fuel memory siz dfs t [] cocs = some (some ([], cocs))
new_tiles fuel memory siz dfs t (area ∷ areas) cocs = do
  (tcomps, settled) ← new_components (memory t) siz dfs area siz.csiz 0 cocs
  l ← layout_of area tcomps settled dfs
  prepared ← prepare_precinct_structure fuel l
  elim prepared [
    | unsupported ↦ some none
    | done crp ↦ do
      later ← new_tiles fuel memory siz dfs (t + 1) areas settled
      some (elim later [
        | none ↦ none
        | some (tiles, markers) ↦
            some (record { idx = t; coord = area; tcomp = tcomps; crp = crp } ∷ tiles, markers)
      ])
  ]

unfoldable pub create :
    ℕ → (ℕ → ℕ → Memory) → SizMarker → DfsMarker → List CocMarker → Option Created
create fuel memory siz dfs cocs = do
  areas ← create_areas siz
  made ← new_tiles fuel memory siz dfs 0 areas cocs
  some (elim made [
    | none ↦ refused
    | some (tiles, settled) ↦ ready tiles (first_table tiles) settled
  ])
