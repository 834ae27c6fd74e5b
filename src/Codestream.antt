-- ===== src/Codestream.antt =====
-- packet_parser/type.hpp, class codestream: the byte and bit reader over a chain of chunks.
-- A chunk is the list of the `len` bytes at `base`; a slab is not written while its chunk is in
-- the chain. Sizes and positions (size_t) are unbounded numbers. `none` is a fault: a read outside
-- of a chunk, or a failed assertion. `last` is kept as the source keeps it.
pub mod Flat
pub mod Place
pub mod Refine
pub mod Contiguous
pub mod Bits
pub mod Growth
pub mod Contract
pub mod Reads
pub mod Total
mod Tests
use rtp_decoder_test.Base.{
  ℕ, zero, suc, ◌+◌, ◌-◌, ◌*◌, ◌/◌, ◌%◌, ◌^◌, min, Bool, ◌||◌, Option, none, some, List, [], ◌∷◌,
  ◌++◌, ltb, leb, ◌==◌, if◌then◌else◌, length, get_elem?, take, drop, replicate,
}

-- The members of codestream, without those of PARSER_OVERSHOOT_INSTR.
pub record Codestream : Type 0 where
  pub chunks : List (List ℕ)
  pub staging : List (List ℕ)
  pub cur_chunk : ℕ
  pub cur_offset : ℕ
  pub consumed_before_cur_chunk : ℕ
  pub tmp : ℕ
  pub last : ℕ
  pub bits : ℕ

-- A member function: it reads and changes the stream, and may fault.
abbrev pub M {ℓ} : Type ℓ → Type ℓ
M A = Codestream → Option (A × Codestream)

abbrev pub pure {ℓ} : {A : Type ℓ} → A → M A
pure a s = some (a, s)

infixl 5 ◌>>=◌ ◌>>◌
abbrev pub ◌>>=◌ {ℓ κ} : {A : Type ℓ} {B : Type κ} → M A → (A → M B) → M B
◌>>=◌ m f s = elim (m s) [ none ↦ none | some (a, s') ↦ f a s' ]

abbrev pub ◌>>◌ {ℓ} : {B : Type ℓ} → M (Unit {0}) → M B → M B
m >> k = m >>= λ _. k

-- The default member initialisers.
unfoldable pub empty : Codestream
empty = record {
  chunks = [];
  staging = [];
  cur_chunk = 0;
  cur_offset = 0;
  consumed_before_cur_chunk = 0;
  tmp = 0;
  last = 0;
  bits = 0;
}

unfoldable pub append_chunk : List ℕ → Codestream → Codestream
append_chunk c s = record s { chunks = s.chunks ++ (c ∷ []) }

unfoldable pub clear : Codestream → Codestream
unfolding empty
clear s = empty

-- The loop that `advance` and `reset` share, over the chunks from the current one on: the index of
-- the current chunk, the offset in it, and the bytes before it.
unfoldable pub walk : List (List ℕ) → ℕ → ℕ → ℕ → ℕ × ℕ × ℕ
walk [] k o b = (k, o, b)
walk (c ∷ rest) k o b =
    let onwards = walk rest (k + 1) (o - length c) (b + length c) in
    if leb (length c) o then onwards else (k, o, b)

abbrev pub seek : Codestream → ℕ × ℕ × ℕ → Codestream
seek s (k, o, b) = record s { cur_chunk = k; cur_offset = o; consumed_before_cur_chunk = b }

unfoldable pub advance : ℕ → Codestream → Codestream
advance n s =
    seek s
      (walk (drop s.cur_chunk s.chunks) s.cur_chunk (s.cur_offset + n) s.consumed_before_cur_chunk)

unfoldable pub reset : ℕ → Codestream → Codestream
reset p s = seek (record s { tmp = 0; last = 0; bits = 0 }) (walk s.chunks 0 p 0)

unfoldable pub get_pos : Codestream → ℕ
get_pos s = (s.consumed_before_cur_chunk + s.cur_offset) % 2 ^ 32

-- A pointer into a chunk, as the chunk's index and an offset; `none` is nullptr.
unfoldable pub get_address : Codestream → Option (ℕ × ℕ)
get_address s = if leb (length s.chunks) s.cur_chunk then none else some (s.cur_chunk, s.cur_offset)

-- The position behind a byte that was read from the chunk `c`.
abbrev pub past_byte : List ℕ → Codestream → Codestream
past_byte c s =
    if s.cur_offset + 1 == length c
    then record s {
      cur_chunk = s.cur_chunk + 1;
      cur_offset = 0;
      consumed_before_cur_chunk = s.consumed_before_cur_chunk + length c;
    }
    else record s { cur_offset = s.cur_offset + 1 }

-- `get_elem?` on the chunks is the bounds check `cur_chunk_ >= chunks_.size()`.
unfoldable pub get_byte : M ℕ
get_byte s = elim (get_elem? s.chunks s.cur_chunk) [
  | none ↦ some (0, s)
  | some c ↦ elim (get_elem? c s.cur_offset) [ none ↦ none | some b ↦ some (b, past_byte c s) ]
]

-- A shift by 8 and an `|` with a byte are a multiplication and a sum.
unfoldable pub get_word : M ℕ
get_word = do hi ← get_byte; lo ← get_byte; pure (hi * 256 + lo)

unfoldable pub get_dword : M ℕ
get_dword = do hi ← get_word; lo ← get_word; pure (hi * 65536 + lo)

-- The refill that `get_bit` and `packetheader_get_bits` share: only 7 bits follow a 0xFF byte.
abbrev pub load_byte : ℕ → Codestream → Codestream
load_byte b s = record s { bits = if s.tmp == 0xff then 7 else 8; last = s.tmp; tmp = b }

unfoldable pub refill : M (Unit {0})
refill s = if s.bits == 0 then (do b ← get_byte; λ t. some (tt, load_byte b t)) s else some (tt, s)

abbrev pub pop_bit : M ℕ
pop_bit s = some (s.tmp / 2 ^ (s.bits - 1) % 2, record s { bits = s.bits - 1 })

unfoldable pub get_bit : M ℕ
get_bit = do refill; pop_bit

-- The loop of `packetheader_get_bits`, on the rounds left; `res` is an int32_t bit pattern.
unfoldable pub get_bits_from : ℕ → ℕ → M ℕ
get_bits_from zero res = pure res
get_bits_from (suc n) res = do b ← get_bit; get_bits_from n (res * 2 % 2 ^ 32 + b)

unfoldable pub packetheader_get_bits : ℕ → M ℕ
packetheader_get_bits n = get_bits_from n 0

unfoldable pub packetheader_flush_bits : M (Unit {0})
packetheader_flush_bits s =
    some (tt, record (if s.tmp == 0xff then advance 1 s else s) { tmp = 0; bits = 0 })

unfoldable pub move_forward : ℕ → M (Unit {0})
move_forward n s = if s.bits == 0 then some (tt, advance n s) else none

-- The copy loop of `take_contiguous`: `out` are the bytes copied so far. A round ends a chunk or
-- the copy, so `length chunks + 2` rounds are enough (Codestream.Contiguous).
unfoldable pub copy_loop : ℕ → ℕ → List ℕ → M (List ℕ)
copy_loop zero len out s = none
copy_loop (suc fuel) len out s = elim (get_elem? s.chunks s.cur_chunk) [
  | none ↦ some (out, s)
  | some c ↦
      let n = min (len - length out) (length c - s.cur_offset) in
      let more = copy_loop fuel len (out ++ take n (drop s.cur_offset c)) (advance n s) in
      if ltb (length out) len
      then (if ltb (length c) s.cur_offset then none else more)
      else some (out, s)
]

-- The staging buffer starts as zeros.
abbrev pub stage : ℕ → List ℕ × Codestream → Option (List ℕ) × Codestream
stage len (out, s) =
    let buffer = out ++ replicate (len - length out) 0 in
    (some buffer, record s { staging = s.staging ++ (buffer ∷ []) })

-- The bytes that the returned pointer addresses; `none` in the result is nullptr.
unfoldable pub take_contiguous : ℕ → M (Option (List ℕ))
take_contiguous len s = elim (get_elem? s.chunks s.cur_chunk) [
  | none ↦ some (none, s)
  | some c ↦
      if len == 0
      then some (some [], s)
      else (if leb (s.cur_offset + len) (length c)
          then some (some (take len (drop s.cur_offset c)), advance len s)
          else elim (copy_loop (length s.chunks + 2) len [] s) [
            | none ↦ none
            | some (out, t) ↦ some (stage len (out, t))
          ])
]
