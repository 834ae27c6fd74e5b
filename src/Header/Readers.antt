-- ===== src/Header/Readers.antt =====
-- packet_parser/j2k_header.cpp: the parsers of the segments only read from the stream.
use rtp_decoder_test.Base.{
  ℕ, zero, suc, ◌+◌, ◌-◌, ◌*◌, ◌/◌, ◌%◌, ◌^◌, Option, none, some, List, [], ◌∷◌, ltb, ◌==◌,
  get_elem?, write?,
}
use rtp_decoder_test.Codestream.Reads.{
  Reads, pure-Reads, none-Reads, if-Reads, bind-Reads, get_byte-Reads, get_word-Reads,
  get_dword-Reads,
}
use rtp_decoder_test.Marker
use rtp_decoder_test.Header.{
  SizMarker, CodMarker, checked, Component, get_component, get_components, parse_siz,
  precinct_sizes, skip_sso, parse_cod,
}
use rtp_decoder_test.Header.Coc.{CocMarker, coc_sizes, parse_coc_style, parse_coc}
use rtp_decoder_test.Header.Dfs.{DfsMarker, dfs_bits, decompose, parse_dfs}
use rtp_decoder_test.Header.Qcd.{QcdMarker, parse_band, parse_levels, parse_qcd}
use rtp_decoder_test.Header.Main.{
  Headers, skip_bytes, skip_marker, cap_words, skip_words, parse_cap, copy_cods, parse_segment,
}

pub checked-Reads : {A : Type 0} (o : Option A) → Reads (checked o)
checked-Reads none = none-Reads
checked-Reads (some a) = pure-Reads a

get_components-Reads : (n : ℕ) → Reads (get_components n)
unfolding get_components
get_components-Reads zero = pure-Reads []
get_components-Reads (suc n) =
    bind-Reads component-Reads λ c. bind-Reads (get_components-Reads n) λ cs. pure-Reads (c ∷ cs)
  where
    component-Reads : Reads get_component
    component-Reads =
        bind-Reads get_byte-Reads
          λ a. bind-Reads get_byte-Reads λ b. bind-Reads get_byte-Reads λ c. pure-Reads _

parse_siz-Reads : (old : List Component) → Reads (parse_siz old)
unfolding parse_siz
parse_siz-Reads old = bind-Reads get_word-Reads λ len. bind-Reads get_word-Reads λ rsiz.
    bind-Reads get_dword-Reads λ x. bind-Reads get_dword-Reads λ y. bind-Reads get_dword-Reads λ xo.
      bind-Reads get_dword-Reads λ yo. bind-Reads get_dword-Reads λ xt.
        bind-Reads get_dword-Reads λ yt. bind-Reads get_dword-Reads λ xto.
          bind-Reads get_dword-Reads λ yto. bind-Reads get_word-Reads λ csiz.
            if-Reads (csiz == 3) (bind-Reads (get_components-Reads 3) λ cs. pure-Reads _)
              (pure-Reads _)

precinct_sizes-Reads : (n i : ℕ) (pr : List (ℕ × ℕ)) → Reads (precinct_sizes n i pr)
unfolding precinct_sizes
precinct_sizes-Reads zero i pr = pure-Reads pr
precinct_sizes-Reads (suc n) i pr = bind-Reads get_byte-Reads λ tmp.
    bind-Reads (checked-Reads (write? pr i (tmp % 16, tmp / 16 % 16)))
      λ written. precinct_sizes-Reads n (i + 1) written

skip_sso-Reads : (siz : SizMarker) → Reads (skip_sso siz)
skip_sso-Reads siz =
    if-Reads (siz.rsiz / 16 % 2 == 0) (pure-Reads tt) (bind-Reads get_word-Reads λ w. pure-Reads tt)

parse_cod-Reads : (siz : SizMarker) (old : CodMarker) → Reads (parse_cod siz old)
unfolding parse_cod
parse_cod-Reads siz old = bind-Reads get_word-Reads λ len. bind-Reads get_byte-Reads λ v.
    bind-Reads get_byte-Reads λ order. bind-Reads get_word-Reads λ layers.
      bind-Reads get_byte-Reads λ mct. bind-Reads get_byte-Reads λ nl.
        bind-Reads get_byte-Reads λ w. bind-Reads get_byte-Reads λ h.
          if-Reads (ltb 4 ((h + 2) % 256)) (pure-Reads _) (
            bind-Reads get_byte-Reads λ cbs. bind-Reads get_byte-Reads λ transform.
              bind-Reads (skip_sso-Reads siz)
                λ sso. bind-Reads (precinct_sizes-Reads (nl + 1) 0 old.pr) λ pr. pure-Reads _)

coc_sizes-Reads : (n i : ℕ) (coc : CocMarker) → Reads (coc_sizes n i coc)
unfolding coc_sizes
coc_sizes-Reads zero i coc = pure-Reads coc
coc_sizes-Reads (suc n) i coc = bind-Reads get_byte-Reads λ tmp.
    bind-Reads (checked-Reads (write? coc.style.pr i (tmp % 16, tmp / 16 % 16)))
      λ pr. coc_sizes-Reads n (i + 1) _

parse_coc_style-Reads :
    (siz : SizMarker) (len : ℕ) (old : CocMarker) → Reads (parse_coc_style siz len old)
unfolding parse_coc_style
parse_coc_style-Reads siz len old = bind-Reads get_byte-Reads λ v. bind-Reads get_byte-Reads λ nl.
    bind-Reads get_byte-Reads λ w. bind-Reads get_byte-Reads λ h.
      if-Reads (ltb 4 ((h + 2) % 256)) (pure-Reads _) (
        bind-Reads get_byte-Reads λ cbs. bind-Reads get_byte-Reads λ transform.
          bind-Reads (skip_sso-Reads siz) λ sso.
            bind-Reads (coc_sizes-Reads ((len + (2 ^ 16 - 9)) % 2 ^ 16) 0 _) λ coc. pure-Reads _)

parse_coc-Reads : (siz : SizMarker) (cocs : List CocMarker) → Reads (parse_coc siz cocs)
unfolding parse_coc
parse_coc-Reads siz cocs = bind-Reads get_word-Reads λ len. bind-Reads get_byte-Reads λ v.
    bind-Reads (checked-Reads (get_elem? cocs v)) λ old.
      bind-Reads (parse_coc_style-Reads siz len (record old { idx = v }))
        λ (failed, coc). bind-Reads (checked-Reads (write? cocs v coc)) λ written. pure-Reads _

dfs_bits-Reads : (n bits : ℕ) → Reads (dfs_bits n bits)
unfolding dfs_bits
dfs_bits-Reads zero bits = pure-Reads bits
dfs_bits-Reads (suc n) bits =
    bind-Reads get_byte-Reads λ b. dfs_bits-Reads n ((bits * 256 + b) % 2 ^ 64)

parse_dfs-Reads : (old : DfsMarker) → Reads (parse_dfs old)
unfolding parse_dfs
parse_dfs-Reads old = bind-Reads get_word-Reads λ len. if-Reads (ltb len 5) (pure-Reads _) (
    bind-Reads get_word-Reads λ idx. bind-Reads get_byte-Reads λ idfs.
      bind-Reads (dfs_bits-Reads (len - 5) 0) λ bits.
        bind-Reads (checked-Reads (decompose bits (record old { idx = idx; idfs = idfs })))
          λ dfs. pure-Reads _)

parse_band-Reads : (k : ℕ) (qcd : QcdMarker) → Reads (parse_band k qcd)
unfolding parse_band
parse_band-Reads k qcd =
    if-Reads (qcd.type == 0)
      (bind-Reads get_byte-Reads
        λ b. bind-Reads (checked-Reads (write? qcd.exponent k (b / 8))) λ e. pure-Reads _)
      (bind-Reads get_word-Reads λ tmp.
        bind-Reads (checked-Reads (write? qcd.exponent k (tmp / 2048 % 256)))
          λ e. bind-Reads (checked-Reads (write? qcd.mantissa k (tmp % 2048))) λ m. pure-Reads _)

parse_levels-Reads :
    (n i : ℕ) (dfs : DfsMarker) (qcd : QcdMarker) → Reads (parse_levels n i dfs qcd)
unfolding parse_levels
parse_levels-Reads zero i dfs qcd = pure-Reads qcd
parse_levels-Reads (suc n) i dfs qcd = bind-Reads (checked-Reads (get_elem? dfs.type i)) λ t.
    bind-Reads
      (if-Reads (t == 1)
        (bind-Reads (parse_band-Reads (3 * (i - 1) + 1) qcd) λ first.
          bind-Reads (parse_band-Reads (3 * (i - 1) + 2) first)
            λ second. parse_band-Reads (3 * (i - 1) + 3) second)
        (parse_band-Reads (3 * (i - 1) + 1) qcd))
      λ level. parse_levels-Reads n (i + 1) dfs level

parse_qcd-Reads :
    (cod : CodMarker) (dfs : DfsMarker) (old : QcdMarker) → Reads (parse_qcd cod dfs old)
unfolding parse_qcd
parse_qcd-Reads cod dfs old = bind-Reads get_word-Reads λ len.
    bind-Reads get_byte-Reads
      λ s. bind-Reads (parse_band-Reads 0 _) λ lowest. parse_levels-Reads _ 1 dfs lowest

skip_marker-Reads : Reads skip_marker
unfolding skip_marker skip_bytes
skip_marker-Reads = bind-Reads get_word-Reads λ len. skip_bytes-Reads (len - 2)
  where
    skip_bytes-Reads : (n : ℕ) → Reads (skip_bytes n)
    skip_bytes-Reads zero = pure-Reads tt
    skip_bytes-Reads (suc n) = bind-Reads get_byte-Reads λ b. skip_bytes-Reads n

cap_words-Reads : (n i pcap words : ℕ) (h : Headers) → Reads (cap_words n i pcap words h)
unfolding cap_words
cap_words-Reads zero i pcap words h = pure-Reads _
cap_words-Reads (suc n) i pcap words h =
    if-Reads (pcap / 2 ^ (31 - i) % 2 == 0) (cap_words-Reads n (i + 1) pcap words h)
      (bind-Reads get_word-Reads λ v. cap_words-Reads n (i + 1) pcap (words + 1) _)

skip_words-Reads : (n : ℕ) → Reads (skip_words n)
unfolding skip_words
skip_words-Reads zero = pure-Reads tt
skip_words-Reads (suc n) = bind-Reads get_word-Reads λ w. skip_words-Reads n

parse_cap-Reads : (h : Headers) → Reads (parse_cap h)
unfolding parse_cap
parse_cap-Reads h = bind-Reads get_word-Reads λ lcap. bind-Reads get_dword-Reads λ pcap.
    bind-Reads (cap_words-Reads 32 0 pcap 0 h)
      λ (words, read). bind-Reads (skip_words-Reads _) λ rest. pure-Reads read

pub parse_segment-Reads : (marker : ℕ) (h : Headers) → Reads (parse_segment marker h)
unfolding parse_segment
parse_segment-Reads marker h =
    if-Reads (marker == Marker.siz)
      (bind-Reads (parse_siz-Reads h.siz.components) λ (e, siz). pure-Reads _)
      (if-Reads (marker == Marker.cap) (parse_cap-Reads h) (
        if-Reads (marker == Marker.cod)
          (bind-Reads (parse_cod-Reads h.siz h.cod)
            λ (e, cod). bind-Reads (checked-Reads (copy_cods cod h.cocs)) λ cocs. pure-Reads _)
          (if-Reads (marker == Marker.qcd)
            (bind-Reads (parse_qcd-Reads h.cod h.dfs h.qcd) λ qcd. pure-Reads _)
            (if-Reads (marker == Marker.coc)
              (bind-Reads (parse_coc-Reads h.siz h.cocs) λ (e, cocs). pure-Reads _)
              (if-Reads (marker == Marker.dfs)
                (bind-Reads (parse_dfs-Reads h.dfs) λ (e, dfs). pure-Reads _)
                (bind-Reads skip_marker-Reads λ u. pure-Reads h))))))
