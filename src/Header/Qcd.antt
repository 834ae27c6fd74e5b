-- ===== src/Header/Qcd.antt =====
-- packet_parser/j2k_header.cpp, parse_QCD: the quantisation of the subbands.
use rtp_decoder_test.Base.{
  ℕ, zero, suc, ◌+◌, ◌-◌, ◌*◌, ◌/◌, ◌%◌, List, ◌==◌, if◌then◌else◌, get_elem?, write?,
}
use rtp_decoder_test.Codestream.{M, get_byte, get_word, ◌>>=◌, pure}
use rtp_decoder_test.Header.{CodMarker, checked}
use rtp_decoder_test.Header.Dfs.{DfsMarker}

-- The arrays have 16 entries.
pub record QcdMarker : Type 0 where
  pub type : ℕ
  pub num_guard_bits : ℕ
  pub exponent : List ℕ
  pub mantissa : List ℕ

-- The values of one subband: a byte where the quantisation is of type 0, else a word.
unfoldable pub parse_band : ℕ → QcdMarker → M QcdMarker
parse_band k qcd =
    if qcd.type == 0
    then (do
      b ← get_byte
      e ← checked (write? qcd.exponent k (b / 8))
      pure (record qcd { exponent = e }))
    else (do
      tmp ← get_word
      e ← checked (write? qcd.exponent k (tmp / 2048 % 256))
      m ← checked (write? qcd.mantissa k (tmp % 2048))
      pure (record qcd { exponent = e; mantissa = m }))

-- The loop over the levels, for `n` more of them from `i` on; a level of type BOTH has 3 subbands.
unfoldable pub parse_levels : ℕ → ℕ → DfsMarker → QcdMarker → M QcdMarker
parse_levels zero i dfs qcd = pure qcd
parse_levels (suc n) i dfs qcd = do
  t ← checked (get_elem? dfs.type i)
  level ←
      if t == 1
      then (do
        first ← parse_band (3 * (i - 1) + 1) qcd
        second ← parse_band (3 * (i - 1) + 2) first
        parse_band (3 * (i - 1) + 3) second)
      else parse_band (3 * (i - 1) + 1) qcd
  parse_levels n (i + 1) dfs level

-- The new marker, over the old one.
unfoldable pub parse_qcd : CodMarker → DfsMarker → QcdMarker → M QcdMarker
parse_qcd cod dfs old = do
  len ← get_word
  s ← get_byte
  let qcd = record old { type = s % 32; num_guard_bits = s / 32 % 8 }
  lowest ← parse_band 0 qcd
  parse_levels (if qcd.type == 1 then 1 else cod.nl) 1 dfs lowest
