-- ===== src/Tile/Walk.antt =====
-- packet_parser/tile_handler.hpp: parse, flush and restart.
use rtp_decoder_test.Base.{
  ℕ, zero, suc, ◌+◌, Bool, true, false, Option, none, some, List, [], ◌∷◌, leb, if◌then◌else◌,
  length, get_elem?,
}
use rtp_decoder_test.Codestream.{Codestream, get_pos}
use rtp_decoder_test.Tile.State.{CrpStatus, Signal, TileHandler, try_recover}

-- `parse_one_precinct` at a position of the progression (`true` is a failure), and what `restart` does
-- to the tag trees and code blocks.
pub record PrecinctParser {ℓ} (W : Type ℓ) : Type ℓ where
  pub parse_one_precinct : ℕ → W → Codestream → Bool × W × Codestream
  pub clear : W → W

-- How a walk ends: out of fuel, with a read outside of the progression, or with the code's result.
pub data Outcome {ℓ} (W : Type ℓ) : Type ℓ where
  out_of_fuel out_of_bounds : Outcome W
  done : Bool → TileHandler W → Codestream → Outcome W

-- `signal_queue_.back()`
unfoldable pub back : List Signal → Option Signal
back [] = none
back (s ∷ []) = some s
back (s ∷ x ∷ ss) = back (x ∷ ss)

module _ {ℓ} {W : Type ℓ} (X : PrecinctParser W) where
  -- A round of a walk whose precinct has been parsed, where `rest` is the walk from there on.
  -- `step` is what the round adds to the position before a recovery.
  abbrev pub settle :
      (TileHandler W → Codestream → Outcome W)
      → CrpStatus
      → ℕ
      → TileHandler W
      → Codestream
      → Outcome W
  settle rest ct step t cs =
      let (failed, w, cs') = X.parse_one_precinct t.crp_idx t.structure cs in
      let failing = record t { structure = w; crp_idx = t.crp_idx + step } in
      let parsed = record t {
        structure = w;
        crp_idx = t.crp_idx + 1;
        prec_calls = ct ∷ t.prec_calls;
      } in
      let (recovered, t', cs'') = try_recover failing cs' in
      let on = rest t' cs'' in
      let next = rest parsed cs' in
      if failed then (if recovered then on else done true t' cs'') else next

  -- The loop of `parse`, on fuel; `crp_idx` moves on in each round, so that there is enough of it with
  -- the length of the progression (Tile.Progress).
  unfoldable pub parse_loop : ℕ → TileHandler W → Codestream → Outcome W
  parse_loop zero t cs = out_of_fuel
  parse_loop (suc fuel) t cs = elim (back t.signal_queue) [
    | none ↦ done false t cs
    | some s ↦
        let gated = leb s.byte_offset (get_pos cs) in
        let round : Outcome W = elim (get_elem? t.crp t.crp_idx) [
          | none ↦ out_of_bounds
          | some ct ↦ settle (parse_loop fuel) ct 1 t cs
        ] in
        if gated then done false t cs else round
  ]

  unfoldable pub parse : TileHandler W → Codestream → Outcome W
  parse t cs = parse_loop (length t.crp + 2) t cs

  -- The loop of `flush`, on fuel: each round moves `crp_idx` on or takes a signal (Tile.Progress).
  unfoldable pub flush_loop : ℕ → TileHandler W → Codestream → Outcome W
  flush_loop zero t cs = out_of_fuel
  flush_loop (suc fuel) t cs =
      let round : Outcome W = elim (get_elem? t.crp t.crp_idx) [
        | none ↦ out_of_bounds
        | some ct ↦ settle (flush_loop fuel) ct 0 t cs
      ] in
      if leb (length t.crp) t.crp_idx then done false t cs else round

  unfoldable pub flush : TileHandler W → Codestream → Outcome W
  flush t cs = flush_loop (length t.crp + length t.signal_queue + 1) t cs

  unfoldable pub restart : TileHandler W → TileHandler W
  restart t = record t { signal_queue = []; crp_idx = 0; structure = X.clear t.structure }
