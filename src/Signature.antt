-- ===== src/Signature.antt =====
-- packet_parser/j2k_header.cpp, geometry_signature: a hash of the main header segments that fix
-- the tile structure.
pub mod Scan
pub mod Segments
mod Tests
use Prim.Native.Nat.{bit_xor}
use rtp_decoder_test.Marker
use rtp_decoder_test.Base.{
  ℕ, zero, suc, ◌+◌, ◌*◌, ◌%◌, ◌^◌, ◌/◌, Bool, true, false, ◌||◌, not, Option, none, some, List, [],
  ◌∷◌, ltb, leb, ◌==◌, if◌then◌else◌, length, get_or, take, drop,
}

-- `rd16`; the code reads within `len` only.
unfoldable pub rd16 : List ℕ → ℕ → ℕ
rd16 mh off = get_or mh off 0 * 256 + get_or mh (off + 1) 0

abbrev pub fnv_basis : ℕ
fnv_basis = 1469598103934665603

abbrev pub fnv_prime : ℕ
fnv_prime = 1099511628211

-- `mix`, over the bytes of a segment; the hash is a uint64_t.
unfoldable pub mix : ℕ → List ℕ → ℕ
mix h [] = h
mix h (b ∷ bs) = mix (bit_xor h b * fnv_prime % 2 ^ 64) bs

-- The cases of the switch.
unfoldable pub is_geometry : ℕ → Bool
is_geometry m =
    m == Marker.siz
    || m == Marker.cod
    || m == Marker.coc
    || m == Marker.qcd
    || m == Marker.qcc
    || m == Marker.dfs
    || m == Marker.atk

-- The scan from the offset `off` on, with the hash so far: the signature and `*sod_off`, both 0
-- where the code returns 0. `none` means that the fuel ran out.
unfoldable pub scan : ℕ → List ℕ → ℕ → ℕ → Option (ℕ × ℕ)
scan zero mh off h = none
scan (suc fuel) mh off h =
    let marker = rd16 mh off in
    let seg = rd16 mh (off + 2) in
    let h' = if is_geometry marker then mix h (take (2 + seg) (drop off mh)) else h in
    let more = scan fuel mh (off + (2 + seg)) h' in
    if ltb (length mh) (off + 2)
    then some (0, 0)
    else (if marker == Marker.sod
        then some (if h == 0 then 1 else h, off + 2)
        else (if not (marker / 256 == 0xff) || marker == Marker.eoc
            then some (0, 0)
            else (if ltb (length mh) (off + 4)
                then some (0, 0)
                else (if ltb seg 2 || ltb (length mh) (off + 2 + seg) then some (0, 0) else more))))

-- Each round moves on by 4 bytes at least, so that `length mh` rounds are enough (Signature.Scan).
unfoldable pub geometry_signature : List ℕ → ℕ × ℕ
geometry_signature mh =
    if ltb (length mh) 4
    then (0, 0)
    else (if rd16 mh 0 == Marker.soc
        then elim (scan (length mh) mh 2 fnv_basis) [ none ↦ (0, 0) | some r ↦ r ]
        else (0, 0))
