-- ===== src/Receiver/Datagram.antt =====
-- rtp_receiver.cpp, the first half of Receiver::handle_dgram: the RTP header of a datagram.
use rtp_decoder_test.Base.{
  ℕ, ◌+◌, ◌-◌, ◌*◌, ◌/◌, ◌%◌, ◌≤◌, ◌≡◌, Option, none, some, List, arith, ltb, ◌==◌, if◌then◌else◌,
  not, length, get_or,
}

abbrev pub slot_bytes : ℕ
slot_bytes = 9216

unfoldable pub rd_u16 : List ℕ → ℕ → ℕ
rd_u16 dgram off = get_or dgram off 0 * 256 + get_or dgram (off + 1) 0

unfoldable pub rd_u32 : List ℕ → ℕ → ℕ
rd_u32 dgram off =
    ((get_or dgram off 0 * 256 + get_or dgram (off + 1) 0) * 256 + get_or dgram (off + 2) 0) * 256
    + get_or dgram (off + 3) 0

-- The length of the header with its contributing sources and its extension.
unfoldable pub header_length : List ℕ → Option ℕ
header_length dgram =
    let hdr = 12 + 4 * (get_or dgram 0 0 % 16) in
    let extended = hdr + (4 + 4 * rd_u16 dgram (hdr + 2)) in
    if ltb (length dgram) hdr
    then none
    else (if get_or dgram 0 0 / 16 % 2 == 0
        then some hdr
        else (if ltb (length dgram) (hdr + 4)
            then none
            else (if ltb (length dgram) extended then none else some extended)))

-- The header's length and the length without the padding; `none` is an early return.
unfoldable pub parse_dgram : List ℕ → Option (ℕ × ℕ)
parse_dgram dgram =
    let pad_len = if get_or dgram 0 0 / 32 % 2 == 0 then 0 else get_or dgram (length dgram - 1) 0 in
    if not (get_or dgram 0 0 / 64 == 2) then none else elim (header_length dgram) [
      | none ↦ none
      | some hdr ↦
          if ltb (length dgram - hdr) pad_len
          then none
          else (if ltb slot_bytes (length dgram - pad_len)
              then none
              else some (hdr, length dgram - pad_len))
    ]

-- Of a datagram that is accepted, the header is no longer than the packet without its padding, which
-- fits into a slot of the slab; so the header's length is not cut off by the 16 bits that it is stored
-- in, and the payload's length does not wrap around.
pub parse_dgram-bounds :
    (dgram : List ℕ) (hdr len : ℕ)
    → parse_dgram dgram ≡ some (hdr, len)
    → (12 ≤ hdr) × (hdr ≤ len) × (len ≤ slot_bytes) × (len ≤ length dgram) × (hdr % 65536 ≡ hdr)
unfolding parse_dgram header_length
parse_dgram-bounds dgram hdr len e = ground arith
