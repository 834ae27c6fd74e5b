-- ===== src/Header/Tests.antt =====
-- Runs of the parsers of a main header, and the theorem on the overflow at a concrete stream.
use rtp_decoder_test.Base.{
  ◌<◌, ◌≤◌, ℕ, ◌≡◌, refl, false, some, List, [], ◌∷◌, ◌++◌, replicate, arith,
}
use rtp_decoder_test.Codestream.{
  Codestream, append_chunk, empty, get_byte, get_word, get_dword, get_pos,
}
use rtp_decoder_test.Header.{parse_siz, get_components, SizMarker, CodMarker}
use rtp_decoder_test.Codestream.Place.{IsValid}
use rtp_decoder_test.Codestream.Reads.{Alike, Holds}
use rtp_decoder_test.Codestream.Refine.{view}
use rtp_decoder_test.Header.Dfs.{
  DfsMarker, dfs_bits, decompose, orientations, depths, depth, parse_dfs,
}
use rtp_decoder_test.Header.Main.{Headers, parse_segment, scan_header, parse_main_header}
use rtp_decoder_test.Header.Scan.{parse_main_header-Alike, scan_header-IsEnd, IsEnd, left}
use rtp_decoder_test.Header.Depths.{HasDepths, decompose-HasDepths}

abbrev wide : List ℕ
wide = 0 ∷ 0 ∷ 0x0f ∷ 0 ∷ []

abbrev high : List ℕ
high = 0 ∷ 0 ∷ 0x08 ∷ 0x70 ∷ []

abbrev image : Codestream
image =
    append_chunk
      (0 ∷ 47 ∷ 0x40 ∷ 0 ∷ []
        ++ wide
        ++ high
        ++ replicate 8 0
        ++ wide
        ++ high
        ++ replicate 8 0
        ++ (0 ∷ 3 ∷ 9 ∷ 1 ∷ 1 ∷ 9 ∷ 2 ∷ 1 ∷ 9 ∷ 2 ∷ 1 ∷ []))
      empty

abbrev parsed : SizMarker
parsed = record {
  rsiz = 0x4000;
  xsiz = 3840;
  ysiz = 2160;
  xosiz = 0;
  yosiz = 0;
  xtsiz = 3840;
  ytsiz = 2160;
  xtosiz = 0;
  ytosiz = 0;
  csiz = 3;
  components =
      record { ssiz = 9; xrsiz = 1; yrsiz = 1 }
      ∷ record { ssiz = 9; xrsiz = 2; yrsiz = 1 }
      ∷ record { ssiz = 9; xrsiz = 2; yrsiz = 1 }
      ∷ [];
}

siz_read :
    parse_siz [] image
    ≡ some ((false, parsed), record image { cur_chunk = 1; consumed_before_cur_chunk = 47 })
unfolding parse_siz get_components get_dword get_word get_byte append_chunk empty
siz_read = refl

-- A header of SOC, a DFS segment of two levels (BOTH, then HORZ) and SOD, in two chunks.
abbrev header : Codestream
header =
    append_chunk (0xff ∷ 0x72 ∷ 0 ∷ 6 ∷ 0 ∷ 1 ∷ 2 ∷ 0x60 ∷ 0xff ∷ 0x93 ∷ 0x80 ∷ [])
      (append_chunk (0xff ∷ 0x4f ∷ []) empty)

abbrev blank_siz : SizMarker
blank_siz = record {
  rsiz = 0;
  xsiz = 0;
  ysiz = 0;
  xosiz = 0;
  yosiz = 0;
  xtsiz = 0;
  ytsiz = 0;
  xtosiz = 0;
  ytosiz = 0;
  csiz = 0;
  components = [];
}

abbrev blank_cod : CodMarker
blank_cod = record {
  max_precinct = false;
  use_sop = 0;
  use_eph = 0;
  use_h_offset = 0;
  use_v_offset = 0;
  use_blkcoder_extension = 0;
  progression_order = 0;
  num_layers = 0;
  mct = 0;
  nl = 0;
  cbw = 0;
  cbh = 0;
  cbs = 0;
  transform = 0;
  pr = replicate 6 (0, 0);
}

abbrev blank_dfs : DfsMarker
blank_dfs = record {
  idx = 0;
  idfs = 0;
  type = replicate 6 0;
  h_orient = replicate 6 0;
  v_orient = replicate 6 0;
  hor_depth = replicate 6 0;
  ver_depth = replicate 6 0;
}

abbrev blank : Headers
blank = record {
  siz = blank_siz;
  cod = blank_cod;
  cocs = replicate 3 (record { idx = 0; style = blank_cod; step_x = 0; step_y = 0 });
  qcd = record {
    type = 0;
    num_guard_bits = 0;
    exponent = replicate 16 0;
    mantissa = replicate 16 0;
  };
  dfs = blank_dfs;
  ccap15 = 0;
  ccap2 = 0;
}

abbrev dfs_parsed : DfsMarker
dfs_parsed = record {
  idx = 1;
  idfs = 2;
  type = 0 ∷ 1 ∷ 2 ∷ 0 ∷ 0 ∷ 0 ∷ [];
  h_orient = replicate 6 0;
  v_orient = 0 ∷ 0 ∷ 1 ∷ 0 ∷ 0 ∷ 0 ∷ [];
  hor_depth = 0 ∷ 1 ∷ 2 ∷ 0 ∷ 0 ∷ 0 ∷ [];
  ver_depth = 0 ∷ 1 ∷ 1 ∷ 0 ∷ 0 ∷ 0 ∷ [];
}

header_read :
    parse_main_header 4 blank header
    ≡ some (
      (12, record blank { dfs = dfs_parsed }),
      record header { cur_chunk = 1; cur_offset = 10; consumed_before_cur_chunk = 2 },
    )
unfolding parse_main_header scan_header parse_segment parse_dfs dfs_bits decompose orientations
    depths depth get_pos get_word get_byte append_chunk empty
header_read = refl

header-IsValid : IsValid header
unfolding append_chunk empty
header-IsValid = record {
  nonempty = (omega arith, (omega arith, tt));
  placed = record { in_chain = omega arith; inside = omega arith; counted = refl };
}

-- The same bytes in one chunk.
abbrev one_chunk : Codestream
one_chunk =
    append_chunk (0xff ∷ 0x4f ∷ 0xff ∷ 0x72 ∷ 0 ∷ 6 ∷ 0 ∷ 1 ∷ 2 ∷ 0x60 ∷ 0xff ∷ 0x93 ∷ 0x80 ∷ [])
      empty

one_chunk-IsValid : IsValid one_chunk
unfolding append_chunk empty
one_chunk-IsValid = record {
  nonempty = (omega arith, tt);
  placed = record { in_chain = omega arith; inside = omega arith; counted = refl };
}

same_bytes : view header ≡ view one_chunk
unfolding append_chunk empty
same_bytes = refl

parse_main_header-Alike_example :
    Alike (parse_main_header 4 blank header) (parse_main_header 4 blank one_chunk)
parse_main_header-Alike_example =
    parse_main_header-Alike 4 blank header one_chunk header-IsValid one_chunk-IsValid same_bytes

left_all : left header < 20
unfolding append_chunk empty
left_all = omega arith

scan_header-IsEnd_example : Holds IsEnd (scan_header 20 blank header)
scan_header-IsEnd_example = scan_header-IsEnd 20 blank header header-IsValid left_all

abbrev two_levels : DfsMarker
two_levels = record blank_dfs { idfs = 2 }

decompose-HasDepths_example :
    (new : DfsMarker) × (decompose 0x60 two_levels ≡ some new)
    × ((lev : ℕ) → lev ≤ 2 → HasDepths new lev)
decompose-HasDepths_example =
    decompose-HasDepths 0x60 two_levels (omega arith) (omega arith) (omega arith) (omega arith)
      (omega arith)
