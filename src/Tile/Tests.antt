-- ===== src/Tile/Tests.antt =====
-- Runs of the walk, and its theorems at a small progression.
use rtp_decoder_test.Base.{ℕ, ◌==◌, ◌≡◌, refl, sym, true, false, some, List, [], ◌∷◌, get_elem?}
use rtp_decoder_test.Codestream.{get_pos, reset, empty}
use rtp_decoder_test.Header.{SizMarker}
use rtp_decoder_test.Tile.Grid.{ceildiv, low_edge, high_edge, tile_area, tile_areas, create_areas}
use rtp_decoder_test.Tile.State.{
  CrpStatus, TileHandler, build_crp_idx_by_pid, positions, lookup_pid, pop_passed, try_recover,
}
use rtp_decoder_test.Tile.Walk.{
  PrecinctParser, out_of_bounds, done, parse, parse_loop, flush, flush_loop, back,
}
use rtp_decoder_test.Tile.Recovery.{IsRecovery, try_recover-IsRecovery, lookup_pid-component}
use rtp_decoder_test.Tile.Progress.{Parses, parse-Parses}

-- Precincts that are empty; the one at position 1 does not parse.
abbrev empty_precincts : PrecinctParser (Unit {0})
empty_precincts = record { parse_one_precinct = λ i w cs. (i == 1, w, cs); clear = λ w. w }

abbrev entry : ℕ → ℕ → CrpStatus
entry c p = record { c = c; r = 0; p = p }

abbrev progression : List CrpStatus
progression = entry 0 0 ∷ entry 1 0 ∷ entry 0 1 ∷ entry 1 1 ∷ []

abbrev small_walk : TileHandler (Unit {0})
small_walk = record {
  crp = progression;
  crp_idx = 0;
  crp_idx_by_pid = (0 ∷ 2 ∷ []) ∷ (1 ∷ 3 ∷ []) ∷ [] ∷ [];
  csiz = 2;
  signal_queue = record { byte_offset = 40; pid = 3 } ∷ [];
  prec_calls = [];
  structure = tt;
}

table : build_crp_idx_by_pid progression ≡ small_walk.crp_idx_by_pid
unfolding build_crp_idx_by_pid positions
table = refl

-- The signal at byte 40 names the second precinct of component 1.
pid_found : lookup_pid 3 small_walk ≡ some 3
unfolding lookup_pid
pid_found = refl

lookup_pid-component_example : (x : CrpStatus) × (get_elem? progression 3 ≡ some x) × (x.c ≡ 1)
lookup_pid-component_example = lookup_pid-component small_walk 3 3 (sym table) pid_found

parse-Parses_example : Parses 0 (parse empty_precincts small_walk empty)
parse-Parses_example = parse-Parses empty_precincts small_walk empty

try_recover-IsRecovery_example : IsRecovery small_walk (try_recover small_walk empty)
try_recover-IsRecovery_example = try_recover-IsRecovery small_walk empty

-- The precinct at position 1 fails, and the walk goes on from the signal with the one at position 3.
recovered :
    flush empty_precincts small_walk empty
    ≡ done false
        (record small_walk {
          crp_idx = 4;
          signal_queue = [];
          prec_calls = entry 1 1 ∷ entry 0 0 ∷ [];
        })
        (reset 40 empty)
unfolding flush flush_loop try_recover pop_passed get_pos empty lookup_pid
recovered = refl

-- No precinct takes bytes, so that the last signal is never reached.
abbrev no_failures : PrecinctParser (Unit {0})
no_failures = record empty_precincts { parse_one_precinct = λ i w cs. (false, w, cs) }

behind_the_end : parse no_failures small_walk empty ≡ out_of_bounds
unfolding parse parse_loop back get_pos empty
behind_the_end = refl

-- A failure whose next signal names the very precinct that failed.
abbrev same_precinct : TileHandler (Unit {0})
same_precinct = record small_walk {
  crp_idx = 1;
  signal_queue = record { byte_offset = 40; pid = 1 } ∷ [];
}

not_resumed :
    parse empty_precincts same_precinct empty
    ≡ done true (record same_precinct { crp_idx = 2 }) empty
unfolding parse parse_loop back get_pos empty try_recover pop_passed lookup_pid
not_resumed = refl

abbrev image : SizMarker
image = record {
  rsiz = 0;
  xsiz = 3840;
  ysiz = 2160;
  xosiz = 0;
  yosiz = 0;
  xtsiz = 3840;
  ytsiz = 2160;
  xtosiz = 0;
  ytosiz = 0;
  csiz = 3;
  components = [];
}

-- Of an image of two by two tiles, the first row alone gets tiles.
two_of_four :
    create_areas (record image { xtsiz = 1920; ytsiz = 1080 })
    ≡ some (
        record { x0 = 0; y0 = 0; x1 = 1920; y1 = 1080 }
        ∷ record { x0 = 1920; y0 = 0; x1 = 3840; y1 = 1080 }
        ∷ [])
unfolding create_areas tile_areas tile_area ceildiv low_edge high_edge
two_of_four = refl
