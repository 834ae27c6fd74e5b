-- ===== src/Tile/State.antt =====
-- packet_parser/tile_handler.hpp: the state of the walk, its signals and the recovery.
-- The structures of the tile are a parameter `W`. `crp_idx`, an int, does not overflow, since there are
-- fewer precincts than 2 ^ 31. One tile is walked, as in the code.
use rtp_decoder_test.Base.{
  ℕ, ◌+◌, ◌/◌, ◌%◌, Bool, true, false, Option, none, some, List, [], ◌∷◌, ◌++◌, ltb, leb, ◌==◌,
  if◌then◌else◌, length, get_elem?,
}
use rtp_decoder_test.Codestream.{Codestream, get_pos, reset}

-- An entry of the progression: component, resolution and precinct.
pub record CrpStatus : Type 0 where
  pub c : ℕ
  pub r : ℕ
  pub p : ℕ

pub record Signal : Type 0 where
  pub byte_offset : ℕ
  pub pid : ℕ

-- The data members of the walk; `prec_calls` are the calls of the precinct callback, the latest first.
pub record TileHandler {ℓ} (W : Type ℓ) : Type ℓ where
  pub crp : List CrpStatus
  pub crp_idx : ℕ
  pub crp_idx_by_pid : List (List ℕ)
  pub csiz : ℕ
  pub signal_queue : List Signal
  pub prec_calls : List CrpStatus
  pub structure : W

-- The positions in the progression, from `i` on, of the precincts of component `k`.
unfoldable pub positions : ℕ → ℕ → List CrpStatus → List ℕ
positions k i [] = []
positions k i (x ∷ xs) = let rest = positions k (i + 1) xs in if x.c == k then i ∷ rest else rest

-- The table that `create` builds, for each of the 3 components that there can be.
unfoldable pub build_crp_idx_by_pid : List CrpStatus → List (List ℕ)
build_crp_idx_by_pid crp = positions 0 0 crp ∷ positions 1 0 crp ∷ positions 2 0 crp ∷ []

-- The loop that pops the signals up to a position.
unfoldable pub pop_passed : ℕ → List Signal → List Signal
pop_passed pos [] = []
pop_passed pos (s ∷ ss) =
    let rest = pop_passed pos ss in if leb s.byte_offset pos then rest else s ∷ ss

module _ {ℓ} {W : Type ℓ} where
  unfoldable pub append_signal : ℕ → ℕ → TileHandler W → TileHandler W
  append_signal byte_offset pid t =
      let kept = if leb 16384 (length t.signal_queue) then [] else t.signal_queue in
      record t { signal_queue = kept ++ (record { byte_offset = byte_offset; pid = pid } ∷ []) }

  -- Where the precinct that a signal names stands in the progression.
  unfoldable pub lookup_pid : ℕ → TileHandler W → Option ℕ
  lookup_pid pid t =
      if t.csiz == 0 then none else elim (get_elem? t.crp_idx_by_pid (pid % t.csiz)) [
        | none ↦ none
        | some indices ↦ get_elem? indices (pid / t.csiz)
      ]

  -- `true` where the walk goes on from the next signal.
  unfoldable pub try_recover : TileHandler W → Codestream → Bool × TileHandler W × Codestream
  try_recover t cs = elim (pop_passed (get_pos cs) t.signal_queue) [
    | [] ↦ (false, record t { signal_queue = [] }, cs)
    | s ∷ ss ↦ elim (lookup_pid s.pid t) [
      | none ↦ (false, record t { signal_queue = s ∷ ss }, cs)
      | some new_crp_idx ↦
          if ltb new_crp_idx t.crp_idx
          then (false, record t { signal_queue = s ∷ ss }, cs)
          else (true, record t { signal_queue = ss; crp_idx = new_crp_idx }, reset s.byte_offset cs)
    ]
  ]
