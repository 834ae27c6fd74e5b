-- ===== src/Signature/Scan.antt =====
-- The scan of geometry_signature ends on every input, and finds the SOD marker.
use rtp_decoder_test.Base.{
  ℕ, zero, suc, ◌+◌, ◌-◌, ◌≤◌, ◌<◌, ◌≡◌, ◌≢◌, refl, ap, false, Bool-cases, ◌⊎◌, inl, inr,
  Option-cases, none, some, List, arith, ltb, ltb→lt, if◌then◌else◌, length, take, drop,
}
use rtp_decoder_test.Signature.{rd16, mix, is_geometry, scan, geometry_signature, fnv_basis}
use rtp_decoder_test.Marker

-- With fuel for what is left of the header the scan ends.
scan-ne-none :
    (fuel : ℕ) (mh : List ℕ) (off h : ℕ)
    → length mh < fuel + off
    → 0 < fuel
    → scan fuel mh off h ≢ none
unfolding scan
scan-ne-none zero mh off h w z = absurd (omega arith)
scan-ne-none (suc fuel) mh off h w z =
    let seg : ℕ = rd16 mh (off + 2) in
    let h' : ℕ = if is_geometry (rd16 mh off) then mix h (take (2 + seg) (drop off mh)) else h in
    ground (arith, scan-ne-none fuel mh (off + (2 + seg)) h')

-- A result of the scan is a refusal, or the offset behind an SOD marker that lies within the header.
abbrev pub Found : List ℕ → ℕ × ℕ → Type 0
Found mh r =
    ((r.0 ≡ 0) × (r.1 ≡ 0)) ⊎ ((0 < r.0) × (r.1 ≤ length mh) × (rd16 mh (r.1 - 2) ≡ Marker.sod))

scan-Found :
    (fuel : ℕ) (mh : List ℕ) (off h : ℕ) (r : ℕ × ℕ) → scan fuel mh off h ≡ some r → Found mh r
unfolding scan
scan-Found zero mh off h r e = cc
scan-Found (suc fuel) mh off h r e =
    let seg : ℕ = rd16 mh (off + 2) in
    let h' : ℕ = if is_geometry (rd16 mh off) then mix h (take (2 + seg) (drop off mh)) else h in
    let back : rd16 mh (off + 2 - 2) ≡ rd16 mh off = ap (rd16 mh) (omega arith) in
    ground (arith, scan-Found fuel mh (off + (2 + seg)) h' r, back)

-- On every input of 4 bytes or more the scan ends within its fuel. The result is either refused, with 0
-- for the signature and for the offset, or the signature is nonzero and the offset is the one behind
-- an SOD marker that lies within the input.
pub geometry_signature-Found :
    (mh : List ℕ)
    → (length mh < 4 ⊎ scan (length mh) mh 2 fnv_basis ≢ none) × Found mh (geometry_signature mh)
unfolding geometry_signature
geometry_signature-Found mh = elim (Bool-cases (ltb (length mh) 4)) [
  | inl short ↦ (inl (ltb→lt (length mh) 4 short), rw short (inl (refl, refl)))
  | inr long ↦ (
    inr (ended long),
    rw long (elim (Option-cases (scan (length mh) mh 2 fnv_basis)) [
      | inl e ↦ absurd (ended long e)
      | inr (r, e) ↦ rw e (ground (arith, scan-Found (length mh) mh 2 fnv_basis r e))
    ]),
  )
]
  where
    ended : ltb (length mh) 4 ≡ false → scan (length mh) mh 2 fnv_basis ≢ none
    ended long = scan-ne-none (length mh) mh 2 fnv_basis (omega arith) (ground arith)
