-- ===== src/Packet/Structure.antt =====
-- packet_parser/j2k_packet.cpp, parepare_tcomp_structure: the resolutions of a tile component, their
-- precincts and the code blocks. stackAlloc is taken to have room. `Memory` is what the memory of a code
-- block holds, by its resolution, precinct, subband and number; create sets some of its members only.
pub mod Faults
pub mod Single
pub mod Gives
pub mod Trees
pub mod Parts
pub mod Precincts
pub mod Areas
pub mod Resolutions
pub mod Tests
use rtp_decoder_test.Base.{
  ℕ, zero, suc, ◌+◌, ◌-◌, ◌*◌, ◌%◌, ◌^◌, not, ◌||◌, Option, none, some, List, [], ◌∷◌, ◌++◌, leb,
  ◌==◌, if◌then◌else◌, get_elem?, replicate,
}
use rtp_decoder_test.Header.Coc.{CocMarker}
use rtp_decoder_test.Header.Dfs.{DfsMarker}
use rtp_decoder_test.Tile.Grid.{Area}
use rtp_decoder_test.Packet.Block.{Node, Block}
use rtp_decoder_test.Packet.Read.{Cell, Precinct}
use rtp_decoder_test.Packet.Tree.{TreeNode, zero_node, tag_tree_size, tag_tree_init, tag_tree_zero}
use rtp_decoder_test.Packet.Geometry.{
  both, ◌>>=◌, Above, scaled, precinct_count, precinct_area, band_area,
}
use rtp_decoder_test.Packet.Geometry.Blocks.{part_of, block_count, block_areas}

abbrev pub Memory : Type 0
Memory = ℕ → ℕ → ℕ → ℕ → Block

-- prec_; `packet` is what a packet header reads and writes of it, and `block_coords` the rectangles of the
-- code blocks, by subband.
pub record Prec : Type 0 where
  pub res_num : ℕ
  pub num_bands : ℕ
  pub use_sop : ℕ
  pub use_eph : ℕ
  pub coord : Area
  pub packet : Precinct
  pub block_coords : List (List Area)

-- res_
pub record Res : Type 0 where
  pub idx : ℕ
  pub coord : Area
  pub npw : ℕ
  pub nph : ℕ
  pub transform_direction : ℕ
  pub num_bands : ℕ
  pub bands : List Area
  pub precs : List Prec

-- A tag tree that has been allocated and set to 0; what its memory held does not matter.
unfoldable pub new_tree : ℕ → ℕ → Option (List TreeNode)
new_tree w h = do
  siz ← tag_tree_size w h
  nodes ← tag_tree_init (replicate siz zero_node) w h
  tag_tree_zero nodes w h

unfoldable pub leaf : List TreeNode → ℕ → Option Node
leaf nodes cb = elim (get_elem? nodes cb) [
  | none ↦ none
  | some t ↦ some (record { val = t.val; vis = t.vis })
]

-- The members of a code block that are set.
abbrev pub fresh_block : Block → Block
fresh_block b = record b {
  incl = 0;
  npasses = 0;
  total = 0;
  lblock = 3;
  pass_length_0 = 0;
  pass_length_1 = 0;
}

-- `n` more code blocks from `cb` on, each with its leaves.
unfoldable pub new_cells : (ℕ → Block) → List TreeNode → List TreeNode → ℕ → ℕ → Option (List Cell)
new_cells memory incl zbp zero cb = some []
new_cells memory incl zbp (suc n) cb = do
  i ← leaf incl cb
  z ← leaf zbp cb
  rest ← new_cells memory incl zbp n (cb + 1)
  some (record { incl_node = i; zbp_node = z; block = fresh_block (memory cb) } ∷ rest)

-- The code blocks of a subband's part, and their rectangles; none where there are no columns or no rows.
unfoldable pub new_band : (ℕ → Block) → ℕ → ℕ → Area → ℕ → ℕ → Option (List Cell × List Area)
new_band memory cbw cbh part ncbw ncbh = if ncbw == 0 || ncbh == 0 then some ([], []) else (do
  incl ← new_tree ncbw ncbh
  zbp ← new_tree ncbw ncbh
  cells ← new_cells memory incl zbp (ncbw * ncbh % 2 ^ 32) 0
  some (cells, block_areas part cbw cbh ncbw (ncbw * ncbh % 2 ^ 32) 0))

-- The number of a subband in the tables.
abbrev pub band_number : ℕ → ℕ → ℕ
band_number num_bands b = if num_bands == 1 then 0 else b + 1

-- The loop over the subbands of a precinct, for `n` more of them from `b` on; each sets ncbw and ncbh.
unfoldable pub new_bands : (ℕ → ℕ → Block) → CocMarker → ℕ → ℕ → ℕ → Prec → Option Prec
new_bands memory coc direction zero b prec = some prec
new_bands memory coc direction (suc n) b prec =
    let cbw = 2 ^ coc.style.cbw in
    let cbh = 2 ^ coc.style.cbh in
    let part = part_of direction (band_number prec.num_bands b) prec.coord in
    let ncbw = block_count cbw part.x0 part.x1 in
    let ncbh = block_count cbh part.y0 part.y1 in
    do
      band ← new_band (memory b) cbw cbh part ncbw ncbh
      new_bands memory coc direction n (b + 1) (record prec {
        packet = record { ncbw = ncbw; ncbh = ncbh; bands = prec.packet.bands ++ (band.0 ∷ []) };
        block_coords = prec.block_coords ++ (band.1 ∷ []);
      })

-- The precinct `np` of a resolution before its loop over the subbands.
abbrev pub bare_precinct : CocMarker → Res → ℕ × ℕ → ℕ → Prec
bare_precinct coc rp size np = record {
  res_num = rp.idx;
  num_bands = rp.num_bands;
  use_sop = coc.style.use_sop;
  use_eph = coc.style.use_eph;
  coord = precinct_area rp.coord rp.npw size.0 size.1 np;
  packet = record { ncbw = 0; ncbh = 0; bands = [] };
  block_coords = [];
}

unfoldable pub new_precinct : (ℕ → ℕ → Block) → CocMarker → Res → ℕ × ℕ → ℕ → Option Prec
new_precinct memory coc rp size np =
    new_bands memory coc rp.transform_direction rp.num_bands 0 (bare_precinct coc rp size np)

-- The loop over the precincts, for `n` more of them from `np` on.
unfoldable pub new_precincts :
    (ℕ → ℕ → ℕ → Block) → CocMarker → Res → ℕ × ℕ → ℕ → ℕ → Option (List Prec)
new_precincts memory coc rp size zero np = some []
new_precincts memory coc rp size (suc n) np = do
  prec ← new_precinct (memory np) coc rp size np
  rest ← new_precincts memory coc rp size n (np + 1)
  some (prec ∷ rest)

-- The loop over the subbands of a resolution, for `n` more of them from `b` on.
unfoldable pub band_areas : ℕ → Area → Area → ℕ → ℕ → Option Above → ℕ → ℕ → Option (List Area)
band_areas direction tcp rp nb num_bands above zero b = some []
band_areas direction tcp rp nb num_bands above (suc n) b = do
  area ← band_area direction tcp rp nb (band_number num_bands b) above
  rest ← band_areas direction tcp rp nb num_bands above n (b + 1)
  some (area ∷ rest)

-- num_bands
abbrev pub subbands : ℕ → ℕ → ℕ
subbands direction r = if not (direction == both) || r == 0 then 1 else 3

-- The level of the subbands of the resolution `r`.
abbrev pub band_level : ℕ → ℕ → ℕ
band_level nl r = if r == 0 then nl else nl - r + 1

-- The resolution `r`; a read behind the arrays of the depths, the types and the precinct sizes is a fault.
unfoldable pub new_resolution :
    Memory → Area → CocMarker → DfsMarker → ℕ → Option Above → Option Res
new_resolution memory tcp coc dfs r above =
    let nl = coc.style.nl in
    do
      direction ← get_elem? dfs.type (nl - r + 1)
      hor ← get_elem? dfs.hor_depth (nl - r)
      ver ← get_elem? dfs.ver_depth (nl - r)
      coord ← scaled (2 ^ hor) (2 ^ ver) tcp
      size ← get_elem? coc.style.pr r
      npw ← precinct_count coord.x0 coord.x1 size.0
      nph ← precinct_count coord.y0 coord.y1 size.1
      let num_bands = subbands direction r
      bands ← band_areas direction tcp coord (band_level nl r) num_bands above num_bands 0
      let rp : Res = record {
        idx = r;
        coord = coord;
        npw = npw;
        nph = nph;
        transform_direction = direction;
        num_bands = num_bands;
        bands = bands;
        precs = [];
      }
      precs ← new_precincts (memory r) coc rp size (npw * nph % 2 ^ 32) 0
      some (record rp { precs = precs })

-- The loop over the resolutions below `n`, the highest first; the array has 6 of them.
unfoldable pub new_resolutions :
    Memory → Area → CocMarker → DfsMarker → ℕ → Option Above → Option (List Res)
new_resolutions memory tcp coc dfs zero above = some []
new_resolutions memory tcp coc dfs (suc r) above = do
  rp ← new_resolution memory tcp coc dfs r above
  lower ←
      new_resolutions memory tcp coc dfs r
        (some (record { direction = rp.transform_direction; coord = rp.coord }))
  some (lower ++ (rp ∷ []))

unfoldable pub parepare_tcomp_structure : Memory → Area → CocMarker → DfsMarker → Option (List Res)
parepare_tcomp_structure memory tcp coc dfs =
    if leb 6 coc.style.nl then none else new_resolutions memory tcp coc dfs (coc.style.nl + 1) none
