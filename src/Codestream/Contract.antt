-- ===== src/Codestream/Contract.antt =====
-- The whole interface of class codestream against its contract.
use rtp_decoder_test.Base.{
  ℕ, ◌-◌, ◌<◌, ◌≡◌, ◌⊎◌, Option, none, some, List, ◌++◌, length, drop, replicate,
}
use rtp_decoder_test.Codestream.{
  Codestream, get_byte, get_word, get_dword, get_bit, packetheader_get_bits,
  packetheader_flush_bits, take_contiguous,
}
use rtp_decoder_test.Codestream.Flat
use rtp_decoder_test.Codestream.Refine.{
  Refines, get_byte-Refines, get_word-Refines, get_dword-Refines, get_bit-Refines,
  get_bits_from-Refines, flush_bits-Refines,
}
use rtp_decoder_test.Codestream.Contiguous.{take_contiguous-Refines}

-- On a valid stream (no empty chunk, the cursor inside of a chunk or behind the chain) no read
-- faults, and each read of bytes, words, bits, a flush of the bit register and a contiguous body
-- returns what a cursor over the concatenated bytes returns, moves to the same position with the
-- same bit register, and leaves a valid stream with the same chunks. A contiguous body that the
-- sequence ends in is returned, filled up with zeros to its length, where the comment on
-- take_contiguous has it refused; one at the end of the sequence is refused.
pub reader-Refines :
    (n len : ℕ)
    → Refines get_byte Flat.get_byte
      × Refines get_word Flat.get_word
      × Refines get_dword Flat.get_dword
      × Refines get_bit Flat.get_bit
      × Refines (packetheader_get_bits n) (Flat.get_bits_from n 0)
      × Refines packetheader_flush_bits Flat.flush_bits
      × Refines (take_contiguous len) (Flat.take_contiguous len)
unfolding packetheader_get_bits
reader-Refines n len = (
  get_byte-Refines,
  get_word-Refines,
  get_dword-Refines,
  get_bit-Refines,
  get_bits_from-Refines n 0,
  flush_bits-Refines,
  take_contiguous-Refines len,
)

-- How a body that was returned stands to the documented one.
abbrev pub IsBody : ℕ → Flat.Flat → Option (List ℕ) → Type 0
IsBody len v body =
    let rest = drop v.pos v.bytes in
    (body ≡ Flat.documented_body len v)
    ⊎ ((Flat.documented_body len v ≡ none)
        × (0 < length rest)
        × (length rest < len)
        × (body ≡ some (rest ++ replicate (len - length rest) 0)))
