-- ===== src/Signature/Tests.antt =====
-- Runs of the signature, and its theorems at concrete headers.
use rtp_decoder_test.Base.{◌≡◌, ◌+◌, ◌==◌, refl, List, [], ◌∷◌, if◌then◌else◌, arith}
use rtp_decoder_test.Marker
use rtp_decoder_test.Signature.{rd16, scan, geometry_signature, fnv_basis}
use rtp_decoder_test.Signature.Segments.{
  Segment, IsSegment, AreSegments, header_bytes, header_size, geometry_hash,
  geometry_signature-header_bytes,
}

abbrev coding_style : Segment
coding_style = record { code = Marker.cod; body = 1 ∷ 2 ∷ [] }

abbrev comment : Segment
comment = record { code = 0xff64; body = 7 ∷ [] }

abbrev segments : List Segment
segments = comment ∷ coding_style ∷ []

comment-IsSegment : IsSegment comment
comment-IsSegment = record {
  marked = omega arith;
  coded = omega arith;
  not_sod = λ e. omega arith;
  not_eoc = λ e. omega arith;
  sized = omega arith;
}

coding_style-IsSegment : IsSegment coding_style
coding_style-IsSegment = record {
  marked = omega arith;
  coded = omega arith;
  not_sod = λ e. omega arith;
  not_eoc = λ e. omega arith;
  sized = omega arith;
}

segments-AreSegments : AreSegments segments
segments-AreSegments = (comment-IsSegment, (coding_style-IsSegment, tt))

geometry_signature-header_bytes_example :
    geometry_signature (0xff ∷ 0x4f ∷ header_bytes segments (9 ∷ [])) ≡ (
      if geometry_hash fnv_basis segments == 0 then 1 else geometry_hash fnv_basis segments,
      2 + header_size segments,
    )
geometry_signature-header_bytes_example =
    geometry_signature-header_bytes segments (9 ∷ []) segments-AreSegments

-- A header of 2 bytes is refused, one with an SOD marker alone is not.
too_short : geometry_signature (0xff ∷ 0x4f ∷ []) ≡ (0, 0)
unfolding geometry_signature
too_short = refl

bare : geometry_signature (0xff ∷ 0x4f ∷ 0xff ∷ 0x93 ∷ []) ≡ (fnv_basis, 4)
unfolding geometry_signature scan rd16
bare = refl
