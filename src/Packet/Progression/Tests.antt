-- ===== src/Packet/Progression/Tests.antt =====
-- Runs of prepare_precinct_structure in both orders, and its theorems at a concrete layout.
use rtp_decoder_test.Base.{
  ℕ, zero, suc, ◌≤◌, ◌≡◌, refl, false, some, List, [], ◌∷◌, arith, replicate,
}
use rtp_decoder_test.Header.{CodMarker}
use rtp_decoder_test.Header.Coc.{CocMarker}
use rtp_decoder_test.Tile.State.{CrpStatus}
use rtp_decoder_test.Packet.Progression.Visit.{
  Resolution, TileComponent, Layout, starts, starts_at, width, visit_all, enter, emit, next_place,
  same,
}
use rtp_decoder_test.Packet.Progression.Walk.{
  resolutions, pcrl_visits, by_resolution, re_max, prcl_visits, least_sizes, steps, sweep,
  walk_tile, pcrl, prcl, done, prepare_in_order, prepare_precinct_structure,
}
use rtp_decoder_test.Packet.Progression.Orders.{SamePrecincts, with_order, prepare-SamePrecincts}
use rtp_decoder_test.Packet.Progression.Returns.{HasLevel, HasLevels, IsSome}
use rtp_decoder_test.Packet.Progression.Finishes.{prepare-IsSome}
use rtp_decoder_test.Packet.Progression.Numbers.{IsNumbered, prepare-IsNumbered}

-- A tile of 4 by 4, in precincts of 2 by 2; the first component has no levels, the others one.
abbrev level : ℕ → Resolution
level npw = record { x0 = 0; y0 = 0; npw = npw }

abbrev tile_component : ℕ → TileComponent
tile_component zero = record { res = level 2 ∷ []; sub_x = 1; sub_y = 1 }
tile_component (suc c) = record { res = level 1 ∷ level 2 ∷ []; sub_x = 1; sub_y = 1 }

abbrev style : ℕ → CodMarker
style nl = record {
  max_precinct = false;
  use_sop = 0;
  use_eph = 0;
  use_h_offset = 0;
  use_v_offset = 0;
  use_blkcoder_extension = 0;
  progression_order = 0;
  num_layers = 1;
  mct = 0;
  nl = nl;
  cbw = 7;
  cbh = 4;
  cbs = 72;
  transform = 0;
  pr = replicate 6 (1, 1);
}

abbrev coc : ℕ → CocMarker
coc zero = record { idx = 0; style = style 0; step_x = 0; step_y = 0 }
coc (suc c) = record { idx = 1; style = style 1; step_x = 0; step_y = 0 }

abbrev layout : Layout
layout = record {
  x0 = 0;
  y0 = 0;
  x1 = 4;
  y1 = 4;
  tcomp = tile_component;
  cocs = coc;
  dfs = record {
    idx = 0;
    idfs = 1;
    type = 0 ∷ 1 ∷ [];
    h_orient = 0 ∷ 0 ∷ [];
    v_orient = 0 ∷ 0 ∷ [];
    hor_depth = 0 ∷ 1 ∷ [];
    ver_depth = 0 ∷ 1 ∷ [];
  };
}

abbrev at : ℕ → ℕ → ℕ → CrpStatus
at c r p = record { c = c; r = r; p = p }

-- The precincts behind those of the tile's corner.
abbrev behind : List CrpStatus
behind =
    at 0 0 1
    ∷ at 1 1 1
    ∷ at 2 1 1
    ∷ at 0 0 2
    ∷ at 1 1 2
    ∷ at 2 1 2
    ∷ at 0 0 3
    ∷ at 1 1 3
    ∷ at 2 1 3
    ∷ []

by_component :
    prepare_precinct_structure 3 (with_order pcrl layout)
    ≡ some (done (at 0 0 0 ∷ at 1 0 0 ∷ at 1 1 0 ∷ at 2 0 0 ∷ at 2 1 0 ∷ behind))
unfolding prepare_precinct_structure prepare_in_order steps least_sizes walk_tile sweep visit_all
    enter emit next_place same starts starts_at width pcrl_visits resolutions
by_component = refl

by_level :
    prepare_precinct_structure 3 (with_order prcl layout)
    ≡ some (done (at 0 0 0 ∷ at 1 0 0 ∷ at 2 0 0 ∷ at 1 1 0 ∷ at 2 1 0 ∷ behind))
unfolding prepare_precinct_structure prepare_in_order steps least_sizes walk_tile sweep visit_all
    enter emit next_place same starts starts_at width prcl_visits by_resolution re_max
by_level = refl

prepare-SamePrecincts_example :
    SamePrecincts
      (prepare_precinct_structure 3 (with_order pcrl layout))
      (prepare_precinct_structure 3 (with_order prcl layout))
prepare-SamePrecincts_example = prepare-SamePrecincts 3 layout

width_two : width (with_order prcl layout) (1, 1) ≡ 2
unfolding width
width_two = refl

prepare-IsNumbered_example :
    IsNumbered (1, 1) (prepare_precinct_structure 3 (with_order prcl layout))
prepare-IsNumbered_example =
    prepare-IsNumbered 3 (with_order prcl layout) (1, 1) (omega arith) (omega arith) (omega arith)
      (omega (arith, width_two)) (omega (arith, width_two)) (omega arith, omega arith)

abbrev resolution_levels : Layout
resolution_levels = with_order prcl layout

lowest : HasLevels resolution_levels 0
lowest = record { level = at_level }
  where
    at_level : (r : ℕ) → r ≤ 0 → HasLevel resolution_levels 0 r
    at_level zero h = record {
      rp = level 2;
      xnl = 0;
      ynl = 0;
      prw = 1;
      prh = 1;
      resolution = refl;
      hor = refl;
      ver = refl;
      sizes = refl;
      narrow = omega arith;
      low = omega arith;
      x_grid = omega arith;
      y_grid = omega arith;
    }
    at_level (suc r) h = absurd (omega arith)

upper : (c : ℕ) → HasLevels resolution_levels (suc c)
upper c = record { level = at_level }
  where
    at_level : (r : ℕ) → r ≤ 1 → HasLevel resolution_levels (suc c) r
    at_level zero h = record {
      rp = level 1;
      xnl = 1;
      ynl = 1;
      prw = 1;
      prh = 1;
      resolution = refl;
      hor = refl;
      ver = refl;
      sizes = refl;
      narrow = omega arith;
      low = omega arith;
      x_grid = omega arith;
      y_grid = omega arith;
    }
    at_level (suc zero) h = record {
      rp = level 2;
      xnl = 0;
      ynl = 0;
      prw = 1;
      prh = 1;
      resolution = refl;
      hor = refl;
      ver = refl;
      sizes = refl;
      narrow = omega arith;
      low = omega arith;
      x_grid = omega arith;
      y_grid = omega arith;
    }
    at_level (suc (suc r)) h = absurd (omega arith)

prepare-IsSome_example : IsSome (prepare_precinct_structure 5 resolution_levels)
prepare-IsSome_example =
    prepare-IsSome 5 resolution_levels lowest (upper 0) (upper 1) (omega arith) (omega arith)
      (omega arith) (omega arith)
