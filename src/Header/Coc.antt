-- ===== src/Header/Coc.antt =====
-- packet_parser/j2k_header.cpp, copy_cod and parse_COC: the coding style of one component. The messages
-- that are printed are left out, and SSO, which nothing sets.
use rtp_decoder_test.Base.{
  ℕ, zero, suc, ◌+◌, ◌-◌, ◌/◌, ◌%◌, ◌^◌, min, Bool, true, false, Option, none, some, List, ltb,
  ◌==◌, if◌then◌else◌, get_elem?, write?,
}
use rtp_decoder_test.Codestream.{M, get_byte, get_word, ◌>>=◌, pure}
use rtp_decoder_test.Header.{SizMarker, CodMarker, checked, skip_sso}

-- `style` are the members that a coc_marker shares with a cod_marker.
pub record CocMarker : Type 0 where
  pub idx : ℕ
  pub style : CodMarker
  pub step_x : ℕ
  pub step_y : ℕ

-- The loop of copy_cod, for `n` more entries from `i` on.
unfoldable pub copy_sizes : ℕ → ℕ → List (ℕ × ℕ) → List (ℕ × ℕ) → Option (List (ℕ × ℕ))
copy_sizes zero i from to = some to
copy_sizes (suc n) i from to = elim (get_elem? from i) [
  | none ↦ none
  | some x ↦ elim (write? to i x) [ none ↦ none | some written ↦ copy_sizes n (i + 1) from written ]
]

unfoldable pub copy_cod : CodMarker → CocMarker → Option CocMarker
copy_cod cod coc = elim (copy_sizes (cod.nl + 1) 0 cod.pr coc.style.pr) [
  | none ↦ none
  | some pr ↦ some (record coc { style = record cod { pr = pr } })
]

-- The loop over the precinct sizes, for `n` more of them from the entry `i` on.
unfoldable pub coc_sizes : ℕ → ℕ → CocMarker → M CocMarker
coc_sizes zero i coc = pure coc
coc_sizes (suc n) i coc = do
  tmp ← get_byte
  pr ← checked (write? coc.style.pr i (tmp % 16, tmp / 16 % 16))
  coc_sizes n (i + 1) (record coc {
    style = record (coc.style) { pr = pr };
    step_x = min coc.step_x (tmp % 16);
    step_y = min coc.step_y (tmp / 16 % 16);
  })

-- The members that stand before the height of the code blocks.
abbrev pub coc_style : ℕ → ℕ → ℕ → ℕ → CodMarker → CodMarker
coc_style v nl w h old = record old {
  max_precinct = v % 2 == 0;
  use_sop = v / 2 % 2;
  use_eph = v / 4 % 2;
  use_h_offset = v / 8 % 2;
  use_v_offset = v / 16 % 2;
  use_blkcoder_extension = v / 32 % 2;
  nl = nl;
  cbw = (w + 2) % 256;
  cbh = (h + 2) % 256;
}

-- The rest of the segment behind its length and index: 9 bytes of the length, a uint16_t, have been
-- counted before the precinct sizes. `true` is EXIT_FAILURE.
unfoldable pub parse_coc_style : SizMarker → ℕ → CocMarker → M (Bool × CocMarker)
parse_coc_style siz len old = do
  v ← get_byte
  nl ← get_byte
  w ← get_byte
  h ← get_byte
  let style = coc_style v nl w h old.style
  if ltb 4 style.cbh then pure (true, record old { style = style }) else (do
    cbs ← get_byte
    transform ← get_byte
    sso ← skip_sso siz
    coc ← coc_sizes ((len + (2 ^ 16 - 9)) % 2 ^ 16) 0 (record old {
      style = record style { cbs = cbs; transform = transform };
      step_x = 16;
      step_y = 16;
    })
    pure (false, coc))

-- The new markers, over the old ones; a component that there is no marker of is a fault.
unfoldable pub parse_coc : SizMarker → List CocMarker → M (Bool × List CocMarker)
parse_coc siz cocs = do
  len ← get_word
  v ← get_byte
  old ← checked (get_elem? cocs v)
  (failed, coc) ← parse_coc_style siz len (record old { idx = v })
  written ← checked (write? cocs v coc)
  pure (failed, written)
