-- ===== src/Codestream/Tests.antt =====
-- Runs of the reader, and its theorems at concrete streams.
use rtp_decoder_test.Base.{ℕ, ◌≡◌, refl, some, List, [], ◌∷◌, ◌++◌, replicate, arith}
use rtp_decoder_test.Codestream.{
  Codestream, append_chunk, reset, get_pos, get_byte, get_word, get_dword, get_bit,
  packetheader_get_bits, packetheader_flush_bits, take_contiguous, ◌>>=◌,
}
use rtp_decoder_test.Codestream.Flat
use rtp_decoder_test.Codestream.Place.{IsValid}
use rtp_decoder_test.Codestream.Refine.{view, Refines}
use rtp_decoder_test.Codestream.Contract.{reader-Refines}
use rtp_decoder_test.Codestream.Bits.{packetheader_get_bits_lem, Yields}
use rtp_decoder_test.Codestream.Growth.{append_chunk-view, reset-get_pos}

-- Two packets' bytes, the first one read.
abbrev chain : Codestream
chain = record {
  chunks = (0xff ∷ 0x7f ∷ 0xa5 ∷ []) ∷ (1 ∷ 2 ∷ 3 ∷ 4 ∷ []) ∷ [];
  staging = [];
  cur_chunk = 0;
  cur_offset = 0;
  consumed_before_cur_chunk = 0;
  tmp = 0;
  last = 0;
  bits = 0;
}

abbrev inside : Codestream
inside = record chain { cur_chunk = 1; cur_offset = 2; consumed_before_cur_chunk = 3 }

chain-IsValid : IsValid chain
chain-IsValid = omega arith

inside-IsValid : IsValid inside
inside-IsValid = omega arith

reads_across : (do _ ← get_byte; get_dword) chain ≡ some (0x7fa5_0102, inside)
unfolding get_dword get_word get_byte
reads_across = refl

reader-Refines_example :
    Refines get_byte Flat.get_byte
    × Refines get_word Flat.get_word
    × Refines get_dword Flat.get_dword
    × Refines get_bit Flat.get_bit
    × Refines (packetheader_get_bits 12) (Flat.get_bits_from 12 0)
    × Refines packetheader_flush_bits Flat.flush_bits
    × Refines (take_contiguous 5) (Flat.take_contiguous 5)
reader-Refines_example = reader-Refines 12 5

-- Four bytes are asked for where one remains.
abbrev last_byte : Codestream
last_byte = record chain { cur_chunk = 1; cur_offset = 3; consumed_before_cur_chunk = 3 }

-- 8 bits of 0xFF, 7 of 0x7F and the first two of 0xA5.
abbrev header : Codestream
header = record chain { chunks = (0xff ∷ 0x7f ∷ []) ∷ (0xa5 ∷ []) ∷ [] }

abbrev first_bits : List ℕ
first_bits = replicate 16 1 ++ (0 ∷ [])

abbrev later_bits : List ℕ
later_bits = 1 ∷ 0 ∷ 0 ∷ 1 ∷ 0 ∷ 1 ∷ []

packetheader_get_bits_lem_example :
    Yields header 0x1fffe later_bits (packetheader_get_bits 17 header)
packetheader_get_bits_lem_example =
    packetheader_get_bits_lem header 17 first_bits later_bits (omega arith) refl refl (omega arith)
      (omega arith)

append_chunk-view_example :
    (view (append_chunk (9 ∷ []) inside) ≡ Flat.append (9 ∷ []) (view inside))
    × IsValid (append_chunk (9 ∷ []) inside)
append_chunk-view_example =
    append_chunk-view (9 ∷ []) inside inside-IsValid (omega arith) (omega arith)

reset-get_pos_example : reset (get_pos inside) inside ≡ inside
reset-get_pos_example = reset-get_pos inside inside-IsValid (omega arith) (omega arith)
