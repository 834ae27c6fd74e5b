-- ===== src/Tile/Progress.antt =====
-- packet_parser/tile_handler.hpp: the walks end, and do not move back.
use rtp_decoder_test.Base.{
  ℕ, zero, suc, ◌+◌, ◌≤◌, ◌<◌, ◌≡◌, ◌⊎◌, ap, Bool, true, Bool-cases, Option-cases, inl, inr, some,
  List, ◌∷◌, arith, leb, length, get_elem?, get_elem?-lt,
}
use rtp_decoder_test.Codestream.{Codestream, get_pos}
use rtp_decoder_test.Tile.State.{CrpStatus, TileHandler, try_recover}
use rtp_decoder_test.Tile.Walk.{
  PrecinctParser, Outcome, out_of_fuel, out_of_bounds, done, settle, back, parse_loop, parse,
}
use rtp_decoder_test.Tile.Recovery.{IsRecovery, try_recover-IsRecovery}

-- How a walk comes to the position `j` with `m` signals left and the calls `ds` of the precinct callback
-- (the latest first), from a position, a number of signals and calls: it parses the next precinct of
-- the progression and reports it, or jumps forward with a signal, which it uses up.
pub data Walked (crp : List CrpStatus) (j m : ℕ) (ds : List CrpStatus)
    : ℕ → ℕ → List CrpStatus → Type 0 where
  arrived : Walked crp j m ds j m ds
  parses :
      {i n : ℕ} {ct : CrpStatus} {cs : List CrpStatus}
      → get_elem? crp i ≡ some ct
      → Walked crp j m ds (i + 1) n (ct ∷ cs)
      → Walked crp j m ds i n cs
  jumps :
      {i n : ℕ} {cs : List CrpStatus} (k l : ℕ)
      → i ≤ k
      → l < n
      → Walked crp j m ds k l cs
      → Walked crp j m ds i n cs

abbrev pub WalkedFrom {ℓ} : {W : Type ℓ} → TileHandler W → TileHandler W → Type 0
WalkedFrom t t' =
    Walked t.crp t'.crp_idx (length t'.signal_queue) t'.prec_calls t.crp_idx (length t.signal_queue)
      t.prec_calls

-- A flush that starts with `t` ends; without a failure it has walked to the end of the progression.
abbrev pub Flushes {ℓ} : {W : Type ℓ} → TileHandler W → Outcome W → Type 0
Flushes t out_of_fuel = ⊥
Flushes t out_of_bounds = ⊥
Flushes t (done failed t' cs) =
    (t.crp_idx ≤ t'.crp_idx) × ((failed ≡ true) ⊎ ((length t.crp ≤ t'.crp_idx) × WalkedFrom t t'))

-- A parse that starts at precinct `i` ends, and has not moved back.
abbrev pub Parses {ℓ} : {W : Type ℓ} → ℕ → Outcome W → Type 0
Parses i out_of_fuel = ⊥
Parses i out_of_bounds = Unit {0}
Parses i (done failed t cs) = i ≤ t.crp_idx

module _ {ℓ} {W : Type ℓ} (X : PrecinctParser W) where
  Parses-earlier : (i j : ℕ) (o : Outcome W) → i ≤ j → Parses j o → Parses i o
  Parses-earlier i j out_of_fuel l f = f
  Parses-earlier i j out_of_bounds l f = f
  Parses-earlier i j (done failed t cs) l f = omega (arith, f)

  -- A round of a walk, by its three ways on.
  settle-cases {κ} :
      (Q : Outcome W → Type κ) (rest : TileHandler W → Codestream → Outcome W) (ct : CrpStatus)
      (step : ℕ) (t : TileHandler W) (cs : Codestream)
      → ((w : W) (cs' : Codestream)
          → Q (
              rest
                (record t {
                  structure = w;
                  crp_idx = t.crp_idx + 1;
                  prec_calls = ct ∷ t.prec_calls;
                })
                cs'))
      → ((w : W) (r : Bool × TileHandler W × Codestream)
          → IsRecovery (record t { structure = w; crp_idx = t.crp_idx + step }) r
          → r.0 ≡ true
          → Q (rest r.1 r.2))
      → ((w : W) (r : Bool × TileHandler W × Codestream)
          → IsRecovery (record t { structure = w; crp_idx = t.crp_idx + step }) r
          → Q (done true r.1 r.2))
      → Q (settle X rest ct step t cs)
  settle-cases Q rest ct step t cs a b c = elim (Bool-cases parsed.0) [
    | inr succeeded ↦ rw succeeded (a parsed.1 parsed.2)
    | inl failed ↦ rw failed (elim (Bool-cases recovery.0) [
      | inl recovered ↦ rw recovered (b parsed.1 recovery recovers recovered)
      | inr lost ↦ rw lost (c parsed.1 recovery recovers)
    ])
  ]
    where
      parsed : Bool × W × Codestream
      parsed = X.parse_one_precinct t.crp_idx t.structure cs

      failing : TileHandler W
      failing = record t { structure = parsed.1; crp_idx = t.crp_idx + step }

      recovery : Bool × TileHandler W × Codestream
      recovery = try_recover failing parsed.2

      recovers : IsRecovery failing recovery
      recovers = try_recover-IsRecovery failing parsed.2

  parse_loop-Parses :
      (fuel : ℕ) (t : TileHandler W) (cs : Codestream)
      → length t.crp + 1 < fuel + t.crp_idx
      → 0 < fuel
      → Parses t.crp_idx (parse_loop X fuel t cs)
  unfolding parse_loop
  parse_loop-Parses zero t cs e z = absurd (omega arith)
  parse_loop-Parses (suc fuel) t cs e z = elim (Option-cases (back t.signal_queue)) [
    | inl empty ↦ rw (empty, parse_loop) (omega arith)
    | inr (s, last) ↦
        rw (last, parse_loop)
          (elim (Bool-cases (leb s.byte_offset (get_pos cs))) [
            | inl gated ↦ rw gated (omega arith)
            | inr ahead ↦ rw ahead (elim (Option-cases (get_elem? t.crp t.crp_idx)) [
              | inl outside ↦ rw outside tt
              | inr (ct, at) ↦
                  let inside : t.crp_idx < length t.crp = get_elem?-lt t.crp t.crp_idx ct at in
                  rw at (
                    settle-cases (Parses t.crp_idx) (parse_loop X fuel) ct 1 t cs
                      (λ w cs'. Parses-earlier t.crp_idx (t.crp_idx + 1) _ (omega arith) (
                        parse_loop-Parses fuel _ cs' (omega (arith, e)) (omega (arith, e, inside))))
                      (λ w r v b.
                        let n : length r.1.crp ≡ length t.crp = ap length v.same_crp in
                        Parses-earlier t.crp_idx r.1.crp_idx _ (omega (arith, v.forward)) (
                          parse_loop-Parses fuel r.1 r.2 (omega (arith, e, v.forward, n))
                            (omega (arith, e, inside))))
                      (λ w r v. omega (arith, v.forward)))
            ])
          ])
  ]

  -- Whatever the parser of a precinct answers, and whatever the signals are: the parse of the precincts
  -- that are complete ends and does not move back in the progression, unless it reads behind the
  -- progression's end.
  pub parse-Parses : (t : TileHandler W) (cs : Codestream) → Parses t.crp_idx (parse X t cs)
  unfolding parse
  parse-Parses t cs = parse_loop-Parses (length t.crp + 2) t cs (omega arith) (omega arith)
