-- ===== src/Packet/Structure/Tests.antt =====
-- Runs of the code that makes the structures of a tile component, and its theorems at concrete inputs.
use rtp_decoder_test.Base.{
  ℕ, zero, suc, ◌≤◌, ◌<◌, get_elem?, ◌+◌, ◌≡◌, refl, false, none, some, List, [], ◌∷◌, arith,
  replicate, length-replicate,
}
use rtp_decoder_test.Codestream.Total.{Returns, Any}
use rtp_decoder_test.Header.{CodMarker}
use rtp_decoder_test.Header.Coc.{CocMarker}
use rtp_decoder_test.Header.Dfs.{DfsMarker}
use rtp_decoder_test.Tile.Grid.{Area}
use rtp_decoder_test.Packet.Read.{Cell, band_headers}
use rtp_decoder_test.Packet.Tree.{
  TreeNode, zero_node, halved, size_loop, tag_tree_size, tag_tree_init, tag_tree_zero, link_levels,
  link_rows, link_row, link, set_parent,
}
use rtp_decoder_test.Packet.Tree.Links.{IsTree}
use rtp_decoder_test.Packet.Tree.Levels.{tag_tree_init-IsTree}
use rtp_decoder_test.Packet.Geometry.{
  uint_ceil, precinct_count, precinct_low, precinct_high, precinct_area, band_edge,
}
use rtp_decoder_test.Packet.Geometry.Cuts.{IsCut, precincts-IsCut}
use rtp_decoder_test.Packet.Geometry.Bands.{band_edge-split}
use rtp_decoder_test.Packet.Geometry.Blocks.{
  reduction_x, reduction_y, part_of, block_count, block_low, block_high, block_area, block_areas,
  block_area-to_end,
}
use rtp_decoder_test.Packet.Structure.{
  Res, Prec, new_tree, leaf, new_cells, new_band, new_bands, new_precinct, bare_precinct,
  parepare_tcomp_structure,
}
use rtp_decoder_test.Packet.Structure.Gives.{Gives, some-Gives}
use rtp_decoder_test.Packet.Structure.Resolutions.{HasShape, parepare-Gives}
use rtp_decoder_test.Packet.Structure.Faults.{parepare-behind_types}
use rtp_decoder_test.Packet.Structure.Single.{single_precinct-Returns}
use rtp_decoder_test.Packet.Tests.{fresh, one_chunk, one_chunk-IsValid}

abbrev node_memory : ℕ → List TreeNode
node_memory n = replicate n zero_node

tag_tree_init-IsTree_example :
    (n : ℕ) × (out : List TreeNode) × (tag_tree_size 2 3 ≡ some n)
    × (tag_tree_init (node_memory n) 2 3 ≡ some out)
    × IsTree n out
tag_tree_init-IsTree_example =
    tag_tree_init-IsTree 2 3 node_memory (λ n. length-replicate n zero_node) (omega arith)
      (omega arith)

-- The memset takes the parents away that tag_tree_init has written.
parents_lost :
    tag_tree_zero (replicate 5 (record zero_node { parent = some 4 })) 2 2
    ≡ some (replicate 5 zero_node)
unfolding tag_tree_zero tag_tree_size size_loop halved
parents_lost = refl

precincts-IsCut_example :
    (n : ℕ) × (precinct_count 1 5 1 ≡ some n)
    × IsCut (precinct_low 1 1) (precinct_high 1 5 1) 1 5 2 n
precincts-IsCut_example = precincts-IsCut 1 5 1 (omega arith) (omega arith)

band_edge-split_example : band_edge 1 0 5 + band_edge 1 1 5 ≡ uint_ceil 5 1
band_edge-split_example = band_edge-split 0 5 (omega arith)

abbrev pub part : Area
part = record { x0 = 0; y0 = 0; x1 = 8; y1 = 8 }

-- Code blocks of 4 by 4: the first one reaches over the whole part.
block_area-to_end_example : ((block_area part 4 4 2 0).x1 ≡ 8) × ((block_area part 4 4 2 0).y1 ≡ 8)
block_area-to_end_example =
    block_area-to_end part 4 4 2 0 (omega arith) (omega arith) (omega arith) (omega arith)

abbrev pub style : ℕ → CodMarker
style nl = record {
  max_precinct = false;
  use_sop = 0;
  use_eph = 0;
  use_h_offset = 0;
  use_v_offset = 0;
  use_blkcoder_extension = 0;
  progression_order = 3;
  num_layers = 1;
  mct = 0;
  nl = nl;
  cbw = 3;
  cbh = 3;
  cbs = 72;
  transform = 0;
  pr = replicate 6 (3, 3);
}

abbrev pub coc : ℕ → CocMarker
coc nl = record { idx = 0; style = style nl; step_x = 3; step_y = 3 }

abbrev dfs : DfsMarker
dfs = record {
  idx = 0;
  idfs = 5;
  type = 0 ∷ replicate 5 1;
  h_orient = replicate 6 0;
  v_orient = replicate 6 0;
  hor_depth = 0 ∷ 1 ∷ 2 ∷ 3 ∷ 4 ∷ 5 ∷ [];
  ver_depth = 0 ∷ 1 ∷ 2 ∷ 3 ∷ 4 ∷ 5 ∷ [];
}

-- Five levels, for which the arrays are made.
parepare-behind_types_example : parepare_tcomp_structure (λ r p b cb. fresh) part (coc 5) dfs ≡ none
parepare-behind_types_example =
    parepare-behind_types (λ r p b cb. fresh) part (coc 5) dfs (omega arith)

abbrev pub lowest : Res
lowest = record {
  idx = 0;
  coord = part;
  npw = 1;
  nph = 1;
  transform_direction = 0;
  num_bands = 1;
  bands = part ∷ [];
  precs = [];
}

abbrev new_cell : Cell
new_cell = record {
  incl_node = record { val = 0; vis = 0 };
  zbp_node = record { val = 0; vis = 0 };
  block = record fresh { lblock = 3 };
}

abbrev pub single : Prec
single = record (bare_precinct (coc 0) lowest (3, 3) 0) {
  packet = record { ncbw = 1; ncbh = 1; bands = (new_cell ∷ []) ∷ [] };
  block_coords = (part ∷ []) ∷ [];
}

single_precinct : new_precinct (λ b cb. fresh) (coc 0) lowest (3, 3) 0 ≡ some single
unfolding new_precinct new_bands new_band new_cells new_tree leaf tag_tree_size size_loop halved
    tag_tree_init tag_tree_zero link_levels link_rows link_row link set_parent part_of reduction_x
    reduction_y block_count uint_ceil block_areas block_area block_low block_high precinct_area
    precinct_low precinct_high
single_precinct = refl

single_precinct-Returns_example : Returns Any (band_headers 72 1 (single.packet.bands) one_chunk)
single_precinct-Returns_example =
    single_precinct-Returns (λ b cb. fresh) (coc 0) lowest (3, 3) 0 single one_chunk refl
      single_precinct one_chunk-IsValid

-- A precinct of one column and two rows in three subbands: the second one has a code block, and the number
-- of columns that is kept is that of the third, which has none.
abbrev narrow : Res
narrow = record lowest {
  coord = record { x0 = 0; y0 = 0; x1 = 1; y1 = 2 };
  transform_direction = 1;
  num_bands = 3;
}

code_block_lost :
    new_precinct (λ b cb. fresh) (coc 0) narrow (3, 3) 0
    ≡ some (record (bare_precinct (coc 0) narrow (3, 3) 0) {
      packet = record { ncbw = 0; ncbh = 1; bands = [] ∷ (new_cell ∷ []) ∷ [] ∷ [] };
      block_coords = [] ∷ (record { x0 = 0; y0 = 0; x1 = 1; y1 = 1 } ∷ []) ∷ [] ∷ [];
    })
unfolding new_precinct new_bands new_band new_cells new_tree leaf tag_tree_size size_loop halved
    tag_tree_init tag_tree_zero link_levels link_rows link_row link set_parent part_of reduction_x
    reduction_y block_count uint_ceil block_areas block_area block_low block_high precinct_area
    precinct_low precinct_high
code_block_lost = refl

-- Markers for one level.
types_shape : (k : ℕ) → 1 ≤ k → k ≤ 1 → Gives (λ t. (1 ≤ t) × (t ≤ 3)) (get_elem? dfs.type k)
types_shape zero l u = absurd (omega arith)
types_shape (suc zero) l u = some-Gives _ 1 (omega arith, omega arith)
types_shape (suc (suc k)) l u = absurd (omega arith)

depths_shape : (k : ℕ) → k ≤ 1 → Gives (λ d. d ≤ 5) (get_elem? dfs.hor_depth k)
depths_shape zero u = some-Gives _ 0 (omega arith)
depths_shape (suc zero) u = some-Gives _ 1 (omega arith)
depths_shape (suc (suc k)) u = absurd (omega arith)

sizes_shape : (k : ℕ) → k ≤ 1 → Gives (λ p. (p.0 < 16) × (p.1 < 16)) (get_elem? (style 1).pr k)
sizes_shape zero u = some-Gives _ (3, 3) (omega arith, omega arith)
sizes_shape (suc zero) u = some-Gives _ (3, 3) (omega arith, omega arith)
sizes_shape (suc (suc k)) u = absurd (omega arith)

one_level-HasShape : HasShape (coc 1) dfs
one_level-HasShape = record {
  least = omega arith;
  most = omega arith;
  types = types_shape;
  lowest = some-Gives _ 1 tt;
  hor = depths_shape;
  ver = depths_shape;
  sizes = sizes_shape;
  blocks = record {
    least_w = omega arith;
    most_w = omega arith;
    least_h = omega arith;
    most_h = omega arith;
  };
}

parepare-Gives_example :
    (res : List Res) × (parepare_tcomp_structure (λ r p b cb. fresh) part (coc 1) dfs ≡ some res)
parepare-Gives_example =
    parepare-Gives (λ r p b cb. fresh) part (coc 1) dfs one_level-HasShape
      (record { x0 = omega arith; y0 = omega arith; x1 = omega arith; y1 = omega arith })
