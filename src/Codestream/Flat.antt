-- ===== src/Codestream/Flat.antt =====
-- The contract of class codestream: a cursor over one sequence of bytes, with no chunks.
use rtp_decoder_test.Base.{
  ℕ, zero, suc, not, ◌||◌, ◌+◌, ◌-◌, ◌*◌, ◌/◌, ◌%◌, ◌^◌, Option, none, some, List, ◌++◌, leb, ◌==◌,
  if◌then◌else◌, length, get_elem?, take, drop, replicate,
}

pub record Flat : Type 0 where
  pub bytes : List ℕ
  pub pos : ℕ
  pub tmp : ℕ
  pub last : ℕ
  pub bits : ℕ

abbrev pub F {ℓ} : Type ℓ → Type ℓ
F A = Flat → A × Flat

abbrev pub pure {ℓ} : {A : Type ℓ} → A → F A
pure a v = (a, v)

infixl 5 ◌>>=◌
abbrev pub ◌>>=◌ {ℓ κ} : {A : Type ℓ} {B : Type κ} → F A → (A → F B) → F B
◌>>=◌ m f v = let (a, w) = m v in f a w

-- Past the end every byte reads as 0, and the cursor stays.
unfoldable pub get_byte : F ℕ
get_byte v = elim (get_elem? v.bytes v.pos) [
  | none ↦ (0, v)
  | some b ↦ (b, record v { pos = v.pos + 1 })
]

unfoldable pub get_word : F ℕ
get_word = do hi ← get_byte; lo ← get_byte; pure (hi * 256 + lo)

unfoldable pub get_dword : F ℕ
get_dword = do hi ← get_word; lo ← get_word; pure (hi * 65536 + lo)

unfoldable pub advance : ℕ → Flat → Flat
advance n v = record v { pos = v.pos + n }

unfoldable pub reset : ℕ → Flat → Flat
reset p v = record v { pos = p; tmp = 0; last = 0; bits = 0 }

unfoldable pub append : List ℕ → Flat → Flat
append c v = record v { bytes = v.bytes ++ c }

unfoldable pub refill : F (Unit {0})
refill v =
    if v.bits == 0
    then (do
      b ← get_byte
      λ w. (tt, record w { bits = if w.tmp == 0xff then 7 else 8; last = w.tmp; tmp = b }))
        v
    else (tt, v)

unfoldable pub get_bit : F ℕ
get_bit = do _ ← refill; λ v. (v.tmp / 2 ^ (v.bits - 1) % 2, record v { bits = v.bits - 1 })

unfoldable pub get_bits_from : ℕ → ℕ → F ℕ
get_bits_from zero res = pure res
get_bits_from (suc n) res = do b ← get_bit; get_bits_from n (res * 2 % 2 ^ 32 + b)

unfoldable pub flush_bits : F (Unit {0})
flush_bits v = (tt, record (if v.tmp == 0xff then advance 1 v else v) { tmp = 0; bits = 0 })

-- `len` bytes from the cursor on; nothing at the end of the sequence. Where the sequence ends within
-- them they are filled up with zeros, as the code does, where the comment on take_contiguous in
-- packet_parser/type.hpp has nothing, too. The cursor moves over the bytes that there are.
unfoldable pub take_contiguous : ℕ → F (Option (List ℕ))
take_contiguous len v =
    let body = take len (drop v.pos v.bytes) in
    if leb (length v.bytes) v.pos
    then (none, v)
    else (some (body ++ replicate (len - length body) 0), record v { pos = v.pos + length body })

-- The body that the comment on take_contiguous in packet_parser/type.hpp promises: nothing where the
-- cursor is behind the end, or where fewer than `len` bytes remain.
abbrev pub documented_body : ℕ → Flat → Option (List ℕ)
documented_body len v =
    let remaining = length v.bytes - v.pos in
    if leb (length v.bytes) v.pos || not (leb len remaining)
    then none
    else some (take len (drop v.pos v.bytes))
