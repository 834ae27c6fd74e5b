-- ===== src/Packet/Lookup.antt =====
-- packet_parser/j2k_packet.cpp, parse_one_precinct, and packet_parser/tile_handler.hpp, restart: the
-- structures of a tile, where a precinct is looked up and written back, and are cleared for a frame.
pub mod Restarted
mod Tests
use rtp_decoder_test.Base.{
  ℕ, zero, suc, ◌+◌, ◌*◌, ◌%◌, ◌^◌, ◌||◌, Bool, Option, none, some, List, [], ◌∷◌, ltb, ◌==◌,
  if◌then◌else◌, get_elem?, write?,
}
use rtp_decoder_test.Codestream.{M, pure, ◌>>=◌}
use rtp_decoder_test.Header.{checked}
use rtp_decoder_test.Header.Coc.{CocMarker}
use rtp_decoder_test.Tile.Grid.{Area}
use rtp_decoder_test.Tile.State.{CrpStatus}
use rtp_decoder_test.Packet.Block.{Block}
use rtp_decoder_test.Packet.Read.{Cell, Precinct, nb_code_blocks, read_packet}
use rtp_decoder_test.Packet.Structure.{Prec, Res}
use rtp_decoder_test.Packet.Tree.{tag_tree_size}

-- tcomp_, with its resolutions up to the number of levels.
pub record Tcomp : Type 0 where
  pub idx : ℕ
  pub coord : Area
  pub sub_x : ℕ
  pub sub_y : ℕ
  pub res : List Res

-- `tile->tcomp[c].res[r].prec[p]`
unfoldable pub find_precinct : CrpStatus → List Tcomp → Option Prec
find_precinct ct tcomps = elim (get_elem? tcomps ct.c) [
  | none ↦ none
  | some tcp ↦ elim (get_elem? tcp.res ct.r) [ none ↦ none | some rp ↦ get_elem? rp.precs ct.p ]
]

-- The structures with another precinct there.
unfoldable pub store_precinct : CrpStatus → Prec → List Tcomp → Option (List Tcomp)
store_precinct ct prec tcomps = elim (get_elem? tcomps ct.c) [
  | none ↦ none
  | some tcp ↦ elim (get_elem? tcp.res ct.r) [
    | none ↦ none
    | some rp ↦ elim (write? rp.precs ct.p prec) [
      | none ↦ none
      | some precs ↦ elim (write? tcp.res ct.r (record rp { precs = precs })) [
        | none ↦ none
        | some res ↦ write? tcomps ct.c (record tcp { res = res })
      ]
    ]
  ]
]

-- The packet of the precinct that an entry of the progression names; `true` is EXIT_FAILURE.
unfoldable pub parse_one_precinct : List CocMarker → CrpStatus → List Tcomp → M (Bool × List Tcomp)
parse_one_precinct cocs ct tcomps = do
  prec ← checked (find_precinct ct tcomps)
  coc ← checked (get_elem? cocs ct.c)
  (failed, packet) ← read_packet coc.style.cbs prec.packet
  stored ← checked (store_precinct ct (record prec { packet = packet }) tcomps)
  pure (failed, stored)

-- The leaves of a code block after the memsets of the tag trees.
abbrev pub clear_leaves : Cell → Cell
clear_leaves c = record c {
  incl_node = record { val = 0; vis = 0 };
  zbp_node = record { val = 0; vis = 0 };
}

-- The members of a code block that a restart sets.
abbrev pub clear_block : Block → Block
clear_block b = record b { total = 0; npasses = 0; pass_length_0 = 0; pass_length_1 = 0 }

abbrev pub before : Cell → Option (List Cell) → Option (List Cell)
before c none = none
before c (some rest) = some (c ∷ rest)

-- The code blocks of a band: the memsets take the first `siz` leaves, the loop the first `n` code blocks.
-- A code block that the band does not have is a fault.
unfoldable pub clear_cells : ℕ → ℕ → List Cell → Option (List Cell)
clear_cells siz zero [] = some []
clear_cells siz (suc n) [] = none
clear_cells zero zero (c ∷ cells) = some (c ∷ cells)
clear_cells zero (suc n) (c ∷ cells) =
    before (record c { block = clear_block c.block }) (clear_cells zero n cells)
clear_cells (suc siz) zero (c ∷ cells) = before (clear_leaves c) (clear_cells siz zero cells)
clear_cells (suc siz) (suc n) (c ∷ cells) =
    before (record (clear_leaves c) { block = clear_block c.block }) (clear_cells siz n cells)

unfoldable pub clear_bands : ℕ → ℕ → List (List Cell) → Option (List (List Cell))
clear_bands siz n [] = some []
clear_bands siz n (band ∷ bands) = elim (clear_cells siz n band) [
  | none ↦ none
  | some cleared ↦ elim (clear_bands siz n bands) [
    | none ↦ none
    | some rest ↦ some (cleared ∷ rest)
  ]
]

-- A precinct without columns or rows has no tag trees, and the memset through its pointers is a fault. The
-- memsets take the size of the tree from the last subband; the subbands of a precinct differ by a column
-- and a row at most, so that they do not go beyond the tree of another one that has the code blocks.
unfoldable pub clear_precinct : Prec → Option Prec
clear_precinct prec = elim (tag_tree_size prec.packet.ncbw prec.packet.ncbh) [
  | none ↦ none
  | some siz ↦
      if prec.packet.ncbw == 0 || prec.packet.ncbh == 0
      then none
      else elim (clear_bands siz (nb_code_blocks prec.packet) prec.packet.bands) [
        | none ↦ none
        | some bands ↦ some (record prec { packet = record (prec.packet) { bands = bands } })
      ]
]

-- A loop that replaces every entry.
unfoldable pub each {ℓ} : {A : Type ℓ} → (A → Option A) → List A → Option (List A)
each f [] = some []
each f (x ∷ xs) = elim (f x) [
  | none ↦ none
  | some y ↦ elim (each f xs) [ none ↦ none | some ys ↦ some (y ∷ ys) ]
]

unfoldable pub clear_resolution : Res → Option Res
clear_resolution rp = elim (each clear_precinct rp.precs) [
  | none ↦ none
  | some precs ↦ some (record rp { precs = precs })
]

unfoldable pub clear_component : Tcomp → Option Tcomp
clear_component tcp = elim (each clear_resolution tcp.res) [
  | none ↦ none
  | some res ↦ some (record tcp { res = res })
]

-- What restart does to the structures of a tile, over the resolutions that create has made.
unfoldable pub clear_structure : List Tcomp → Option (List Tcomp)
clear_structure tcomps = each clear_component tcomps
