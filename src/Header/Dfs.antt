-- ===== src/Header/Dfs.antt =====
-- packet_parser/j2k_header.cpp, parse_DFS: the decomposition style of the levels, and the depths that
-- follow from it.
use rtp_decoder_test.Base.{
  ℕ, zero, suc, ◌+◌, ◌-◌, ◌*◌, ◌/◌, ◌%◌, ◌^◌, Bool, true, false, Option, none, some, List, ltb,
  ◌==◌, if◌then◌else◌, get_elem?, write?,
}
use rtp_decoder_test.Codestream.{M, get_byte, get_word, ◌>>=◌, pure}
use rtp_decoder_test.Header.{checked}

-- The arrays have 6 entries.
pub record DfsMarker : Type 0 where
  pub idx : ℕ
  pub idfs : ℕ
  pub type : List ℕ
  pub h_orient : List ℕ
  pub v_orient : List ℕ
  pub hor_depth : List ℕ
  pub ver_depth : List ℕ

-- The loop over the bytes of the string, in a uint64_t.
unfoldable pub dfs_bits : ℕ → ℕ → M ℕ
dfs_bits zero bits = pure bits
dfs_bits (suc n) bits = do b ← get_byte; dfs_bits n ((bits * 256 + b) % 2 ^ 64)

-- The bits that fill the last byte of a string of `idfs` pairs of bits.
abbrev pub padding : ℕ → ℕ
padding idfs = (2 * idfs + 7) / 8 * 8 - 2 * idfs

-- The tables `ho` and `vo`, at a type.
abbrev pub ho : ℕ → ℕ
ho t = if t == 3 then 1 else 0

abbrev pub vo : ℕ → ℕ
vo t = if t == 2 then 1 else 0

-- The loop from the level `n` down to 1.
unfoldable pub orientations : ℕ → ℕ → DfsMarker → Option DfsMarker
orientations zero bits dfs = some dfs
orientations (suc n) bits dfs =
    let t = bits % 4 in
    elim (write? dfs.type (suc n) t) [
      | none ↦ none
      | some types ↦ elim (write? dfs.h_orient (suc n) (ho t)) [
        | none ↦ none
        | some hs ↦ elim (write? dfs.v_orient (suc n) (vo t)) [
          | none ↦ none
          | some vs ↦
              orientations n (bits / 4) (record dfs { type = types; h_orient = hs; v_orient = vs })
        ]
      ]
    ]

-- The inner loop of the depths: how many of the levels from 1 to `lev` have no orientation.
unfoldable pub depth : List ℕ → ℕ → Option ℕ
depth orient zero = some 0
depth orient (suc lev) = elim (get_elem? orient (suc lev)) [
  | none ↦ none
  | some o ↦ elim (depth orient lev) [ none ↦ none | some d ↦ some (if o == 0 then d + 1 else d) ]
]

-- The outer loop of the depths, for `n` more levels from `lev` on.
unfoldable pub depths : ℕ → ℕ → List ℕ → List ℕ → Option (List ℕ)
depths zero lev orient out = some out
depths (suc n) lev orient out = elim (depth orient lev) [
  | none ↦ none
  | some d ↦ elim (write? out lev d) [
    | none ↦ none
    | some written ↦ depths n (lev + 1) orient written
  ]
]

-- What is computed from the string, as one number.
unfoldable pub decompose : ℕ → DfsMarker → Option DfsMarker
decompose bits dfs = elim (orientations dfs.idfs (bits / 2 ^ padding dfs.idfs) dfs) [
  | none ↦ none
  | some o ↦ elim (depths (dfs.idfs + 1) 0 o.h_orient o.hor_depth) [
    | none ↦ none
    | some hor ↦ elim (depths (dfs.idfs + 1) 0 o.v_orient o.ver_depth) [
      | none ↦ none
      | some ver ↦ some (record o { hor_depth = hor; ver_depth = ver })
    ]
  ]
]

-- The new marker, over the old one; `true` is EXIT_FAILURE.
unfoldable pub parse_dfs : DfsMarker → M (Bool × DfsMarker)
parse_dfs old = do
  len ← get_word
  if ltb len 5 then pure (true, old) else (do
    idx ← get_word
    idfs ← get_byte
    bits ← dfs_bits (len - 5) 0
    dfs ← checked (decompose bits (record old { idx = idx; idfs = idfs }))
    pure (false, dfs))
