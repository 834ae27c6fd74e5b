-- ===== src/Header.antt =====
-- packet_parser/j2k_header.cpp, parse_SIZ and parse_COD: the image size and the coding style of a main
-- header. The messages that are printed are left out.
pub mod Overflow
pub mod Coc
pub mod Dfs
pub mod Qcd
pub mod Main
pub mod Readers
pub mod Scan
pub mod Orient
pub mod Depths
mod Tests
use rtp_decoder_test.Base.{
  ℕ, zero, suc, ◌+◌, ◌-◌, ◌/◌, ◌%◌, Bool, true, false, not, Option, none, some, List, write?, [],
  ◌∷◌, ◌++◌, ltb, leb, ◌==◌, if◌then◌else◌,
}
use rtp_decoder_test.Codestream.{M, get_byte, get_word, get_dword, ◌>>=◌, ◌>>◌, pure}

-- Ssiz, XRsiz and YRsiz of a component.
pub record Component : Type 0 where
  pub ssiz : ℕ
  pub xrsiz : ℕ
  pub yrsiz : ℕ

pub record SizMarker : Type 0 where
  pub rsiz : ℕ
  pub xsiz : ℕ
  pub ysiz : ℕ
  pub xosiz : ℕ
  pub yosiz : ℕ
  pub xtsiz : ℕ
  pub ytsiz : ℕ
  pub xtosiz : ℕ
  pub ytosiz : ℕ
  pub csiz : ℕ
  pub components : List Component

abbrev pub get_component : M Component
get_component = do
  ssiz ← get_byte
  xrsiz ← get_byte
  yrsiz ← get_byte
  pure (record { ssiz = ssiz; xrsiz = xrsiz; yrsiz = yrsiz })

-- The loop over the components.
unfoldable pub get_components : ℕ → M (List Component)
get_components zero = pure []
get_components (suc n) = do c ← get_component; cs ← get_components n; pure (c ∷ cs)

-- The new marker, over the old components; `true` is EXIT_FAILURE.
unfoldable pub parse_siz : List Component → M (Bool × SizMarker)
parse_siz old = do
  len ← get_word
  rsiz ← get_word
  xsiz ← get_dword
  ysiz ← get_dword
  xosiz ← get_dword
  yosiz ← get_dword
  xtsiz ← get_dword
  ytsiz ← get_dword
  xtosiz ← get_dword
  ytosiz ← get_dword
  csiz ← get_word
  let siz : SizMarker = record {
    rsiz = rsiz;
    xsiz = xsiz;
    ysiz = ysiz;
    xosiz = xosiz;
    yosiz = yosiz;
    xtsiz = xtsiz;
    ytsiz = ytsiz;
    xtosiz = xtosiz;
    ytosiz = ytosiz;
    csiz = csiz;
    components = old;
  }
  if csiz == 3
      then (do cs ← get_components 3; pure (false, record siz { components = cs }))
      else pure (true, siz)

pub record CodMarker : Type 0 where
  pub max_precinct : Bool
  pub use_sop : ℕ
  pub use_eph : ℕ
  pub use_h_offset : ℕ
  pub use_v_offset : ℕ
  pub use_blkcoder_extension : ℕ
  pub progression_order : ℕ
  pub num_layers : ℕ
  pub mct : ℕ
  pub nl : ℕ
  pub cbw : ℕ
  pub cbh : ℕ
  pub cbs : ℕ
  pub transform : ℕ
  pub pr : List (ℕ × ℕ)

-- A value that a fault may have taken the place of.
abbrev pub checked {ℓ} : {A : Type ℓ} → Option A → M A
checked o s = elim o [ none ↦ none | some a ↦ some (a, s) ]

-- The loop over the precinct sizes, for `n` more of them from the entry `i` on; `pr` are the arrays
-- `prw` and `prh`, of 6 entries, and a write behind them is a fault.
unfoldable pub precinct_sizes : ℕ → ℕ → List (ℕ × ℕ) → M (List (ℕ × ℕ))
precinct_sizes zero i pr = pure pr
precinct_sizes (suc n) i pr = do
  tmp ← get_byte
  written ← checked (write? pr i (tmp % 16, tmp / 16 % 16))
  precinct_sizes n (i + 1) written

-- The word for the overlap, where bit 4 of Rsiz is set.
abbrev pub skip_sso : SizMarker → M (Unit {0})
skip_sso siz = if siz.rsiz / 16 % 2 == 0 then pure tt else (do w ← get_word; pure tt)

-- The new marker, over the old one; `true` is EXIT_FAILURE.
unfoldable pub parse_cod : SizMarker → CodMarker → M (Bool × CodMarker)
parse_cod siz old = do
  len ← get_word
  v ← get_byte
  order ← get_byte
  layers ← get_word
  mct ← get_byte
  nl ← get_byte
  w ← get_byte
  h ← get_byte
  let cod = record old {
    max_precinct = v % 2 == 0;
    use_sop = v / 2 % 2;
    use_eph = v / 4 % 2;
    use_h_offset = v / 8 % 2;
    use_v_offset = v / 16 % 2;
    use_blkcoder_extension = v / 32 % 2;
    progression_order = order;
    num_layers = layers;
    mct = mct;
    nl = nl;
    cbw = (w + 2) % 256;
    cbh = (h + 2) % 256;
  }
  if ltb 4 cod.cbh then pure (true, cod) else (do
    cbs ← get_byte
    transform ← get_byte
    sso ← skip_sso siz
    pr ← precinct_sizes (nl + 1) 0 cod.pr
    pure (false, record cod { cbs = cbs; transform = transform; pr = pr }))
