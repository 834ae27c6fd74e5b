-- ===== src/Packet/Arena.antt =====
-- packet_parser/utils.cpp, stackAlloc: the arena of the packet parser. The count of all bytes, which is
-- printed at most, is left out. A pointer is an offset into the buffer, and `none` is NULL.
use rtp_decoder_test.Base.{
  ℕ, ◌+◌, ◌*◌, ◌%◌, ◌^◌, ◌≤◌, ◌<◌, Option, none, some, List, [], ◌∷◌, ltb, if◌then◌else◌,
  Bool-cases, inl, inr, arith,
}

-- BUFSIZE
abbrev pub bufsize : ℕ
bufsize = 1024 * 4096

-- A call with `reset` not 0.
abbrev pub stack_reset : ℕ → Option ℕ × ℕ
stack_reset index = (none, 0)

-- A call for `n` bytes, where `index` bytes are taken: the block, and the bytes that are taken then. The
-- sum is a size_t.
unfoldable pub stack_alloc : ℕ → ℕ → Option ℕ × ℕ
stack_alloc n index =
    if ltb bufsize ((index + n) % 2 ^ 64) then (none, index) else (some index, (index + n) % 2 ^ 64)

-- A block that was given out: where it starts, and its size.
pub record Chunk : Type 0 where
  pub offset : ℕ
  pub size : ℕ

abbrev pub kept : ℕ → Option ℕ × ℕ → List Chunk → List Chunk
kept n (none, index) blocks = blocks
kept n (some offset, index) blocks = record { offset = offset; size = n } ∷ blocks

-- The blocks that calls for the sizes `ns` give out, the latest first, and the bytes that are taken.
unfoldable pub allocate : List ℕ → List Chunk → ℕ → List Chunk × ℕ
allocate [] blocks index = (blocks, index)
allocate (n ∷ ns) blocks index = let r = stack_alloc n index in allocate ns (kept n r blocks) r.1

-- The blocks lie in the buffer below `top`, each below the ones that were given out behind it.
unfoldable pub Stacked : List Chunk → ℕ → Type 0
Stacked [] top = top ≤ bufsize
Stacked (b ∷ bs) top = (b.offset + b.size ≤ top) × (top ≤ bufsize) × Stacked bs b.offset

-- Sizes that do not overflow a size_t with the bytes of the buffer.
abbrev pub AreSizes : List ℕ → Type 0
AreSizes [] = Unit {0}
AreSizes (n ∷ ns) = (n < 2 ^ 63) × AreSizes ns

Stacked-top : (bs : List Chunk) (top : ℕ) → Stacked bs top → top ≤ bufsize
unfolding Stacked
Stacked-top [] top h = h
Stacked-top (b ∷ bs) top h = h.1

stack_alloc-Stacked :
    (n index : ℕ) (bs : List Chunk)
    → n < 2 ^ 63
    → Stacked bs index
    → Stacked (kept n (stack_alloc n index) bs) (stack_alloc n index).1
unfolding stack_alloc Stacked
stack_alloc-Stacked n index bs l h = elim (Bool-cases (ltb bufsize ((index + n) % 2 ^ 64))) [
  | inl full ↦ rw full h
  | inr room ↦ rw room (omega (arith, Stacked-top bs index h), ground (arith, room), h)
]

-- Since a reset, whatever sizes below 2 ^ 63 were asked for, the blocks that were given out lie within the
-- 4 MiB of the buffer and do not overlap, whether calls in between were refused or not.
pub allocate-Stacked :
    (ns : List ℕ)
    → AreSizes ns
    → Stacked (allocate ns [] (stack_reset 0).1).0 (allocate ns [] (stack_reset 0).1).1
unfolding Stacked allocate
allocate-Stacked ns h = go ns [] 0 h (omega arith)
  where
    go :
        (ns : List ℕ) (bs : List Chunk) (index : ℕ)
        → AreSizes ns
        → Stacked bs index
        → Stacked (allocate ns bs index).0 (allocate ns bs index).1
    go [] bs index a h = h
    go (n ∷ ns) bs index a h =
        go ns (kept n (stack_alloc n index) bs) (stack_alloc n index).1 a.1
          (stack_alloc-Stacked n index bs a.0 h)
