-- ===== src/Signature/Segments.antt =====
-- packet_parser/j2k_header.cpp, geometry_signature: what the signature depends on.
use rtp_decoder_test.Base.{
  ℕ, zero, suc, ◌+◌, ◌*◌, ◌/◌, ◌%◌, ◌≤◌, ◌<◌, ◌≡◌, ◌≢◌, refl, sym, ap, ap₂, ◌∙◌, some, List, [],
  ◌∷◌, ◌++◌, append_assoc, arith, ◌==◌, if◌then◌else◌, length, take, drop, get_or, length-append,
  drop-append_right,
}
use rtp_decoder_test.Signature.{rd16, mix, is_geometry, scan, geometry_signature, fnv_basis}
use rtp_decoder_test.Marker

-- A marker segment of a main header: its code, and what follows its length field.
pub record Segment : Type 0 where
  pub code : ℕ
  pub body : List ℕ

-- The code is a marker that has a segment, and the length field is in its range.
pub record IsSegment (s : Segment) : Type 0 where
  pub marked : 0xff00 ≤ s.code
  pub coded : s.code < 0x10000
  pub not_sod : s.code ≢ Marker.sod
  pub not_eoc : s.code ≢ Marker.eoc
  pub sized : length s.body + 2 < 0x10000

abbrev pub AreSegments : List Segment → Type 0
AreSegments [] = Unit {0}
AreSegments (s ∷ ss) = IsSegment s × AreSegments ss

abbrev pub segment_bytes : Segment → List ℕ
segment_bytes s =
    s.code / 256 ∷ s.code % 256 ∷ (length s.body + 2) / 256 ∷ (length s.body + 2) % 256 ∷ s.body

-- The segments, the SOD marker, and what follows it.
unfoldable pub header_bytes : List Segment → List ℕ → List ℕ
header_bytes [] rest = 0xff ∷ 0x93 ∷ rest
header_bytes (s ∷ ss) rest = segment_bytes s ++ header_bytes ss rest

unfoldable pub header_size : List Segment → ℕ
header_size [] = 2
header_size (s ∷ ss) = 4 + length s.body + header_size ss

-- The hash of the segments that fix the geometry, in their order.
unfoldable pub geometry_hash : ℕ → List Segment → ℕ
geometry_hash h [] = h
geometry_hash h (s ∷ ss) =
    geometry_hash (if is_geometry s.code then mix h (segment_bytes s) else h) ss

get_or-append_right :
    (pre r : List ℕ) (i j : ℕ) → j ≡ length pre + i → get_or (pre ++ r) j 0 ≡ get_or r i 0
get_or-append_right [] r i j e = ap (λ k. get_or r k 0) (omega arith)
get_or-append_right (x ∷ pre) r i zero e = absurd (omega arith)
get_or-append_right (x ∷ pre) r i (suc j) e = get_or-append_right pre r i j (omega arith)

-- A word that stands behind a prefix.
rd16-append_right : (pre r : List ℕ) (i j : ℕ) → j ≡ length pre + i → rd16 (pre ++ r) j ≡ rd16 r i
unfolding rd16
rd16-append_right pre r i j e =
    ap₂ (λ a b. a * 256 + b) (get_or-append_right pre r i j e)
      (get_or-append_right pre r (i + 1) (j + 1) (omega arith))

take-length_append : (xs ys : List ℕ) (n : ℕ) → n ≡ length xs → take n (xs ++ ys) ≡ xs
take-length_append [] ys zero e = refl
take-length_append [] ys (suc n) e = absurd (omega arith)
take-length_append (x ∷ xs) ys zero e = absurd (omega arith)
take-length_append (x ∷ xs) ys (suc n) e = ap (◌∷◌ x) (take-length_append xs ys n (omega arith))

-- One round of the scan, over a segment.
scan-segment :
    (fuel : ℕ) (mh : List ℕ) (off h : ℕ) (s : Segment)
    → IsSegment s
    → rd16 mh off ≡ s.code
    → rd16 mh (off + 2) ≡ length s.body + 2
    → off + 4 + length s.body ≤ length mh
    → scan (suc fuel) mh off h
      ≡ scan fuel mh
          (off + (2 + (length s.body + 2)))
          (if is_geometry s.code then mix h (take (2 + (length s.body + 2)) (drop off mh)) else h)
unfolding scan
scan-segment fuel mh off h s v c l b =
    let split : s.code ≡ s.code / 256 * 256 + s.code % 256 = omega arith in
    rw c (rw l (ground (arith, v.marked, v.coded, v.not_sod, v.not_eoc, v.sized)))

scan-sod :
    (fuel : ℕ) (mh : List ℕ) (off h : ℕ)
    → rd16 mh off ≡ Marker.sod
    → off + 2 ≤ length mh
    → scan (suc fuel) mh off h ≡ some (if h == 0 then 1 else h, off + 2)
unfolding scan
scan-sod fuel mh off h e b = ground arith

scan-header_bytes :
    (ss : List Segment) (pre rest : List ℕ) (fuel off h : ℕ)
    → length ss < fuel
    → AreSegments ss
    → off ≡ length pre
    → scan fuel (pre ++ header_bytes ss rest) off h
      ≡ some (if geometry_hash h ss == 0 then 1 else geometry_hash h ss, off + header_size ss)
unfolding header_bytes header_size geometry_hash rd16
scan-header_bytes ss pre rest zero off h f v e = absurd (omega arith)
scan-header_bytes [] pre rest (suc fuel) off h f v e =
    scan-sod fuel _ off h (rd16-append_right pre (0xff ∷ 0x93 ∷ rest) 0 off (omega arith))
      (omega (arith, length-append pre (0xff ∷ 0x93 ∷ rest)))
scan-header_bytes (s ∷ ss) pre rest (suc fuel) off h f v e =
    scan-segment fuel mh off h s v.0 (code_read ∙ omega arith) (size_read ∙ omega arith) bound
    ∙ ap₂ (λ m b. scan fuel m next (if is_geometry s.code then mix h b else h))
        (sym (append_assoc pre (segment_bytes s) more)) bytes
    ∙ scan-header_bytes ss (pre ++ segment_bytes s) rest fuel next _ (omega arith) v.1
        (omega (arith, length-append pre (segment_bytes s)))
    ∙ ap (λ k. some (if geometry_hash h' ss == 0 then 1 else geometry_hash h' ss, k)) (omega arith)
  where
    more : List ℕ
    more = header_bytes ss rest

    mh : List ℕ
    mh = pre ++ (segment_bytes s ++ more)

    next : ℕ
    next = off + (2 + (length s.body + 2))

    h' : ℕ
    h' = if is_geometry s.code then mix h (segment_bytes s) else h

    code_read : rd16 mh off ≡ s.code / 256 * 256 + s.code % 256
    code_read = rd16-append_right pre (segment_bytes s ++ more) 0 off (omega arith)

    size_read : rd16 mh (off + 2) ≡ (length s.body + 2) / 256 * 256 + (length s.body + 2) % 256
    size_read = rd16-append_right pre (segment_bytes s ++ more) 2 (off + 2) (omega arith)

    bound : off + 4 + length s.body ≤ length mh
    bound = omega (arith, length-append pre (segment_bytes s ++ more), length-append s.body more)

    bytes : take (2 + (length s.body + 2)) (drop off mh) ≡ segment_bytes s
    bytes =
        ap (take (2 + (length s.body + 2)))
          (drop-append_right 0 off pre (segment_bytes s ++ more) (omega arith))
        ∙ take-length_append (segment_bytes s) more (2 + (length s.body + 2)) (omega arith)

length-header_bytes :
    (ss : List Segment) (rest : List ℕ) → length ss + 2 ≤ length (header_bytes ss rest)
unfolding header_bytes
length-header_bytes [] rest = omega arith
length-header_bytes (s ∷ ss) rest =
    omega (arith, length-header_bytes ss rest, length-append s.body (header_bytes ss rest))

-- For a main header, the SOC marker followed by any segments and the SOD marker, whatever stands
-- behind it: the signature is the hash of the segments SIZ, COD, COC, QCD, QCC, DFS and ATK alone, in
-- their order, made 1 where it would be 0, and the offset is the one behind the SOD marker. A segment
-- of another kind, such as a comment that changes from frame to frame, does not change it.
pub geometry_signature-header_bytes :
    (ss : List Segment) (rest : List ℕ)
    → AreSegments ss
    → geometry_signature (0xff ∷ 0x4f ∷ header_bytes ss rest) ≡ (
      if geometry_hash fnv_basis ss == 0 then 1 else geometry_hash fnv_basis ss,
      2 + header_size ss,
    )
unfolding geometry_signature rd16
geometry_signature-header_bytes ss rest v = ground (
  arith,
  length-header_bytes ss rest,
  scan-header_bytes ss (0xff ∷ 0x4f ∷ []) rest (length (0xff ∷ 0x4f ∷ header_bytes ss rest)) 2
      fnv_basis (omega (arith, length-header_bytes ss rest)) v refl,
)
