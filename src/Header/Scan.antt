-- ===== src/Header/Scan.antt =====
-- packet_parser/j2k_header.cpp, parse_main_header: the scan ends, and the cut of the bytes into chunks does
-- not matter to it.
use rtp_decoder_test.Base.{
  ℕ, zero, suc, ◌+◌, ◌-◌, ◌/◌, ◌≤◌, ◌<◌, ◌≡◌, refl, sym, ap, ◌∙◌, not, Option-cases, inl, inr, some,
  arith, ◌==◌, length, get_elem?, get_elem?-lt, flatten,
}
use mathlib.Core.Path.{subst}
use rtp_decoder_test.Codestream.{Codestream, get_word, get_pos, pure}
use rtp_decoder_test.Codestream.Flat
use rtp_decoder_test.Codestream.Flat.{Flat}
use rtp_decoder_test.Codestream.Place.{IsValid}
use rtp_decoder_test.Codestream.Refine.{
  view, Agrees, get_word-Refines, flat_get_byte-end, flat_get_byte-inside,
}
use rtp_decoder_test.Codestream.Reads.{
  Alike, Forward, Reads, Holds, bind-Holds, if-Holds, returned, pure-Reads, if-Reads, bind-Reads,
  get_word-Reads, get_pos-Reads, get_byte-Monotone,
}
use rtp_decoder_test.Marker
use rtp_decoder_test.Header.Main.{
  Headers, Scan, found, lost, starved, is_lost, parse_segment, scan_header, parse_main_header,
}
use rtp_decoder_test.Header.Readers.{parse_segment-Reads}

scan_header-Reads : (fuel : ℕ) (h : Headers) → Reads (scan_header fuel h)
unfolding scan_header
scan_header-Reads zero h = pure-Reads _
scan_header-Reads (suc fuel) h = bind-Reads get_word-Reads λ marker.
    if-Reads (marker == Marker.sod) (pure-Reads _) (
      if-Reads (is_lost marker) (pure-Reads _)
        (bind-Reads (parse_segment-Reads marker h) λ read. scan_header-Reads fuel read))

parse_main_header-Reads : (fuel : ℕ) (h : Headers) → Reads (parse_main_header fuel h)
unfolding parse_main_header
parse_main_header-Reads fuel h = bind-Reads get_word-Reads λ soc.
    if-Reads (not (soc == Marker.soc)) (pure-Reads _)
      (bind-Reads (scan_header-Reads fuel _) λ q. result q.0 q.1)
  where
    result :
        (end : Scan) (read : Headers)
        → Reads {A = ℕ × Headers}
            (elim end [ found ↦ (λ s. some ((get_pos s, read), s)) | _ ↦ pure (0, read) ])
    result found read = get_pos-Reads (λ p. (p, read))
    result lost read = pure-Reads (0, read)
    result starved read = pure-Reads (0, read)

-- On two valid streams of the same bytes, at the same position and with the same bit register, however
-- the bytes are cut into chunks, the parse of a main header faults on both or on neither, returns the same
-- position and the same markers, and leaves both streams at the same position.
pub parse_main_header-Alike :
    (fuel : ℕ) (h : Headers) (s t : Codestream)
    → IsValid s
    → IsValid t
    → view s ≡ view t
    → Alike (parse_main_header fuel h s) (parse_main_header fuel h t)
parse_main_header-Alike fuel h s t v w e = (parse_main_header-Reads fuel h).alike s t v w e

-- A word whose first byte is 0xFF was read before the end.
marker-moves :
    (v : Flat)
    → (Flat.get_word v).0 / 256 ≡ 0xff
    → (v.pos < length v.bytes) × (v.pos < (Flat.get_word v).1.pos)
unfolding Flat.get_word
marker-moves v h = elim (Option-cases (get_elem? v.bytes v.pos)) [
  | inl past ↦
      let at_end : Flat.get_word v ≡ (0, v) =
        rw (flat_get_byte-end v past) (rw (flat_get_byte-end v past) refl) in
      absurd (zero_marker (subst (λ (q : ℕ × Flat). q.0 / 256 ≡ 0xff) at_end h))
  | inr (b, here) ↦ (
    get_elem?-lt v.bytes v.pos b here,
    rw (flat_get_byte-inside v b here)
        (omega (arith, get_byte-Monotone (record v { pos = v.pos + 1 }))),
  )
]
  where
    zero_marker : 0 / 256 ≡ 0xff → ⊥
    zero_marker e = omega arith

-- How many bytes are behind the position.
abbrev pub left : Codestream → ℕ
left s = length (flatten s.chunks) - (view s).pos

word-left :
    (s t : Codestream) (w : ℕ)
    → IsValid s
    → get_word s ≡ some (w, t)
    → w / 256 ≡ 0xff
    → left t < left s
word-left s t w v e h =
    let d =
      subst (λ r. Agrees s.chunks r (Flat.get_word (view s))) e (get_word-Refines.agrees s v) in
    let (inside, moved) = marker-moves (view s) (ap (λ x. x / 256) (sym d.0) ∙ h) in
    let kept = ap (λ cs. length (flatten cs)) d.3 in
    let there = ap (λ (x : Flat). x.pos) d.1 in omega (arith, kept, there, inside, moved)

Forward-left : (s t : Codestream) → Forward s t → left t ≤ left s
Forward-left s t f = omega (arith, ap (λ cs. length (flatten cs)) f.same_chunks, f.forward)

-- The scan has not used up its fuel.
abbrev pub IsEnd : Scan × Headers → Codestream → Type 0
IsEnd (found, h) s = Unit {0}
IsEnd (lost, h) s = Unit {0}
IsEnd (starved, h) s = ⊥

-- Fuel for one more marker than there are bytes behind the position is enough for the scan of a main
-- header on a valid stream: it ends at SOD, or where the framing is lost, or at a fault.
pub scan_header-IsEnd :
    (fuel : ℕ) (h : Headers) (s : Codestream)
    → IsValid s
    → left s < fuel
    → Holds IsEnd (scan_header fuel h s)
unfolding scan_header
scan_header-IsEnd zero h s v l = absurd (omega arith)
scan_header-IsEnd (suc fuel) h s v l = bind-Holds IsEnd _ (get_word s) λ w t e.
    if-Holds IsEnd (w == Marker.sod) _ _ t (λ sod. tt)
      λ other.
        if-Holds IsEnd (is_lost w) _ _ t (λ off. tt)
          λ on. bind-Holds IsEnd _ (parse_segment w h t) λ read u parsed.
            let at_word = returned get_word s t w get_word-Reads v e in
            let behind =
              returned (parse_segment w h) t u read (parse_segment-Reads w h) at_word.valid
                parsed in
            scan_header-IsEnd fuel read u behind.valid
              (omega (arith, Forward-left t u behind, word-left s t w v e (ground arith)))
