-- ===== src/Packet/Lookup/Tests.antt =====
-- Runs of parse_one_precinct and of the restart of a precinct, and their theorems at concrete inputs.
use rtp_decoder_test.Base.{◌≡◌, refl, false, some, List, [], ◌∷◌}
use rtp_decoder_test.Codestream.{◌>>=◌}
use rtp_decoder_test.Tile.State.{CrpStatus}
use rtp_decoder_test.Packet.Read.{Precinct}
use rtp_decoder_test.Packet.Tree.{halved, size_loop, tag_tree_size}
use rtp_decoder_test.Packet.Structure.{Prec}
use rtp_decoder_test.Packet.Lookup.{Tcomp, find_precinct, store_precinct, parse_one_precinct}
use rtp_decoder_test.Packet.Lookup.{clear_cells, clear_bands, clear_precinct}
use rtp_decoder_test.Packet.Lookup.Restarted.{IsRestarted, clear_precinct-IsRestarted}
use rtp_decoder_test.Packet.Tests.{packet, packet_read, one_chunk, one_block, one_chunk-IsValid}
use rtp_decoder_test.Packet.Structure.Tests.{part, coc, lowest, single}

abbrev tile_of : Precinct → List Tcomp
tile_of p =
    record {
      idx = 0;
      coord = part;
      sub_x = 1;
      sub_y = 1;
      res = record lowest { precs = record single { packet = p } ∷ [] } ∷ [];
    }
    ∷ []

abbrev first_entry : CrpStatus
first_entry = record { c = 0; r = 0; p = 0 }

one_packet :
    parse_one_precinct (coc 0 ∷ []) first_entry (tile_of packet) one_chunk
    ≡ some ((false, tile_of packet_read), record one_chunk { cur_offset = 6; last = 0 })
unfolding parse_one_precinct find_precinct store_precinct
one_packet = rw (one_block, ◌>>=◌) refl

-- The precinct behind a frame, and for the next one.
abbrev used : Prec
used = record single { packet = packet_read }

abbrev restarted : Prec
restarted = record single {
  packet = record {
    ncbw = 1;
    ncbh = 1;
    bands =
        (record {
          incl_node = record { val = 0; vis = 0 };
          zbp_node = record { val = 0; vis = 0 };
          block = record {
            data_bytes = some (1 ∷ 2 ∷ 3 ∷ 0x25 ∷ 0x47 ∷ []);
            pass_length_0 = 0;
            pass_length_1 = 0;
            total = 0;
            scup = 0x475;
            modes = 72;
            incl = 1;
            lblock = 3;
            zbp = 0;
            npasses = 0;
            ht_plhd = false;
          };
        }
          ∷ [])
        ∷ [];
  };
}

cleared : clear_precinct used ≡ some restarted
unfolding clear_precinct clear_bands clear_cells tag_tree_size size_loop halved
cleared = refl

clear_precinct-IsRestarted_example : IsRestarted used restarted one_chunk 72
clear_precinct-IsRestarted_example =
    clear_precinct-IsRestarted used restarted one_chunk 72 cleared one_chunk-IsValid
