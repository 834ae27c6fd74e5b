-- ===== src/Header/Main.antt =====
-- packet_parser/j2k_header.cpp, skip_marker, parse_CAP and parse_main_header: the scan of a main header up
-- to SOD. Its warning on the extended progression is left out.
use rtp_decoder_test.Base.{
  ℕ, zero, suc, ◌+◌, ◌-◌, ◌/◌, ◌%◌, ◌^◌, Bool, not, ◌||◌, Option, none, some, List, [], ◌∷◌, leb,
  ◌==◌, if◌then◌else◌,
}
use rtp_decoder_test.Codestream.{M, get_byte, get_word, get_dword, get_pos, ◌>>=◌, pure}
use rtp_decoder_test.Marker
use rtp_decoder_test.Header.{SizMarker, CodMarker, checked, parse_siz, parse_cod}
use rtp_decoder_test.Header.Coc.{CocMarker, copy_cod, parse_coc}
use rtp_decoder_test.Header.Dfs.{DfsMarker, parse_dfs}
use rtp_decoder_test.Header.Qcd.{QcdMarker, parse_qcd}

unfoldable pub skip_bytes : ℕ → M (Unit {0})
skip_bytes zero = pure tt
skip_bytes (suc n) = do b ← get_byte; skip_bytes n

unfoldable pub skip_marker : M (Unit {0})
skip_marker = do len ← get_word; skip_bytes (len - 2)

-- What the header says: the markers, and the capabilities `g_Ccap15` and `g_Ccap2`.
pub record Headers : Type 0 where
  pub siz : SizMarker
  pub cod : CodMarker
  pub cocs : List CocMarker
  pub qcd : QcdMarker
  pub dfs : DfsMarker
  pub ccap15 : ℕ
  pub ccap2 : ℕ

-- The loop over the `n` bits of Pcap behind the first `i`: a word for each that is set. The number of words
-- that were read comes back too.
unfoldable pub cap_words : ℕ → ℕ → ℕ → ℕ → Headers → M (ℕ × Headers)
cap_words zero i pcap words h = pure (words, h)
cap_words (suc n) i pcap words h =
    if pcap / 2 ^ (31 - i) % 2 == 0 then cap_words n (i + 1) pcap words h else (do
      v ← get_word
      cap_words n (i + 1) pcap (words + 1) (
          if i == 1
          then record h { ccap2 = v }
          else (if i == 14 then record h { ccap15 = v } else h)))

unfoldable pub skip_words : ℕ → M (Unit {0})
skip_words zero = pure tt
skip_words (suc n) = do w ← get_word; skip_words n

unfoldable pub parse_cap : Headers → M Headers
parse_cap h = do
  lcap ← get_word
  pcap ← get_dword
  (words, read) ← cap_words 32 0 pcap 0 h
  rest ← skip_words ((if leb 6 lcap then (lcap - 6) / 2 else 0) - words)
  pure read

-- The copies of the coding style to the components.
unfoldable pub copy_cods : CodMarker → List CocMarker → Option (List CocMarker)
copy_cods cod [] = some []
copy_cods cod (c ∷ cs) = elim (copy_cod cod c) [
  | none ↦ none
  | some copied ↦ elim (copy_cods cod cs) [ none ↦ none | some rest ↦ some (copied ∷ rest) ]
]

-- The switch over the marker; the results of the parsers are not looked at.
unfoldable pub parse_segment : ℕ → Headers → M Headers
parse_segment marker h =
    if marker == Marker.siz
    then (do (e, siz) ← parse_siz h.siz.components; pure (record h { siz = siz }))
    else (if marker == Marker.cap
        then parse_cap h
        else (if marker == Marker.cod
            then (do
              (e, cod) ← parse_cod h.siz h.cod
              cocs ← checked (copy_cods cod h.cocs)
              pure (record h { cod = cod; cocs = cocs }))
            else (if marker == Marker.qcd
                then (do qcd ← parse_qcd h.cod h.dfs h.qcd; pure (record h { qcd = qcd }))
                else (if marker == Marker.coc
                    then (do (e, cocs) ← parse_coc h.siz h.cocs; pure (record h { cocs = cocs }))
                    else (if marker == Marker.dfs
                        then (do (e, dfs) ← parse_dfs h.dfs; pure (record h { dfs = dfs }))
                        else (do u ← skip_marker; pure h))))))

-- How the scan ends: at SOD, or where the framing is lost.
pub data Scan : Type 0 where
  found : Scan
  lost : Scan
  starved : Scan

-- A token that cannot stand in a main header.
abbrev pub is_lost : ℕ → Bool
is_lost marker = not (marker / 256 == 0xff) || marker == Marker.eoc

-- The loop, on fuel; `starved` is where the fuel is used up.
unfoldable pub scan_header : ℕ → Headers → M (Scan × Headers)
scan_header zero h = pure (starved, h)
scan_header (suc fuel) h = do
  marker ← get_word
  if marker == Marker.sod
      then pure (found, h)
      else (if is_lost marker
          then pure (lost, h)
          else (do read ← parse_segment marker h; scan_header fuel read))

-- The position behind SOD, or 0.
unfoldable pub parse_main_header : ℕ → Headers → M (ℕ × Headers)
parse_main_header fuel h = do
  soc ← get_word
  if not (soc == Marker.soc) then pure (0, h) else (do
    (end, read) ← scan_header fuel (record h { ccap15 = 0; ccap2 = 0 })
    elim end [ found ↦ (λ s. some ((get_pos s, read), s)) | _ ↦ pure (0, read) ])
