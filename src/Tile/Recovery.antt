-- ===== src/Tile/Recovery.antt =====
-- packet_parser/tile_handler.hpp: where a recovery leads.
use rtp_decoder_test.Base.{
  ℕ, zero, suc, ◌+◌, ◌-◌, ◌/◌, ◌%◌, ◌≤◌, ◌<◌, ◌≡◌, ◌⊎◌, refl, sym, ap, ◌∙◌, Bool, true, false,
  Bool-cases, Option-cases, inl, inr, some, List, [], ◌∷◌, arith, ltb, ◌==◌, length, get_elem?,
}
use rtp_decoder_test.Codestream.{Codestream, get_pos}
use rtp_decoder_test.Tile.State.{
  CrpStatus, Signal, TileHandler, positions, build_crp_idx_by_pid, pop_passed, lookup_pid,
  try_recover,
}

length-pop_passed : (pos : ℕ) (ss : List Signal) → length (pop_passed pos ss) ≤ length ss
unfolding pop_passed
length-pop_passed pos [] = omega arith
length-pop_passed pos (s ∷ ss) = ground (arith, length-pop_passed pos ss)

-- A recovery that succeeds takes a signal and does not move back in the progression; one that fails
-- stays where it is. The progression and the calls of the precinct callback do not change.
pub record IsRecovery {ℓ} {W : Type ℓ} (t : TileHandler W) (r : Bool × TileHandler W × Codestream)
    : Type ℓ where
  pub forward : t.crp_idx ≤ r.1.crp_idx
  pub stays : (r.0 ≡ true) ⊎ (r.1.crp_idx ≡ t.crp_idx)
  pub consumes : (r.0 ≡ false) ⊎ (length r.1.signal_queue < length t.signal_queue)
  pub same_crp : r.1.crp ≡ t.crp
  pub same_calls : r.1.prec_calls ≡ t.prec_calls

module _ {ℓ} {W : Type ℓ} where
  -- Every recovery, from whatever signals: where it succeeds it takes at least one signal, where it fails it
  -- stays at its place in the progression, and it never moves back in the progression nor changes it, and
  -- it makes no call of the precinct callback.
  pub try_recover-IsRecovery :
      (t : TileHandler W) (cs : Codestream) → IsRecovery t (try_recover t cs)
  unfolding try_recover
  try_recover-IsRecovery t cs = go (pop_passed (get_pos cs) t.signal_queue) refl
    where
      go :
          (ss : List Signal)
          → pop_passed (get_pos cs) t.signal_queue ≡ ss
          → IsRecovery t (try_recover t cs)
      go [] e =
          rw (e, try_recover)
            (record {
              forward = omega arith;
              stays = inr refl;
              consumes = inl refl;
              same_crp = refl;
              same_calls = refl;
            })
      go (s ∷ ss) e =
          rw (e, try_recover)
            (elim (Option-cases (lookup_pid s.pid t)) [
              | inl unknown ↦ rw unknown (record {
                forward = omega arith;
                stays = inr refl;
                consumes = inl refl;
                same_crp = refl;
                same_calls = refl;
              })
              | inr (i, known) ↦ rw known (elim (Bool-cases (ltb i t.crp_idx)) [
                | inl backward ↦ rw backward (record {
                  forward = omega arith;
                  stays = inr refl;
                  consumes = inl refl;
                  same_crp = refl;
                  same_calls = refl;
                })
                | inr ahead ↦ rw ahead (record {
                  forward = ground arith;
                  stays = inl refl;
                  consumes =
                      inr
                        (omega (arith, length-pop_passed (get_pos cs) t.signal_queue, ap length e));
                  same_crp = refl;
                  same_calls = refl;
                })
              ])
            ])

abbrev Found : ℕ → ℕ → List CrpStatus → ℕ → Type 0
Found k i crp n = (x : CrpStatus) × (get_elem? crp (n - i) ≡ some x) × (x.c ≡ k) × (i ≤ n)

Found-later :
    (k i n : ℕ) (x : CrpStatus) (xs : List CrpStatus) → Found k (i + 1) xs n → Found k i (x ∷ xs) n
Found-later k i n x xs (y, at, c, l) =
    let next : n - i ≡ suc (n - (i + 1)) = omega arith in
    (y, ap (get_elem? (x ∷ xs)) next ∙ at, c, omega arith)

positions-Found :
    (k i : ℕ) (crp : List CrpStatus) (n s : ℕ)
    → get_elem? (positions k i crp) s ≡ some n
    → Found k i crp n
unfolding positions
positions-Found k i [] n s e = cc
positions-Found k i (x ∷ xs) n zero e = elim (Bool-cases (x.c == k)) [
  | inl mine ↦
      let first : n - i ≡ 0 = ground arith in
      (x, ap (get_elem? (x ∷ xs)) first, ground arith, ground arith)
  | inr other ↦ Found-later k i n x xs (positions-Found k (i + 1) xs n zero (ground arith))
]
positions-Found k i (x ∷ xs) n (suc s) e = elim (Bool-cases (x.c == k)) [
  | inl mine ↦ Found-later k i n x xs (positions-Found k (i + 1) xs n s (ground arith))
  | inr other ↦ Found-later k i n x xs (positions-Found k (i + 1) xs n (suc s) (ground arith))
]

build-positions :
    (crp : List CrpStatus) (k : ℕ) (is : List ℕ)
    → get_elem? (build_crp_idx_by_pid crp) k ≡ some is
    → is ≡ positions k 0 crp
unfolding build_crp_idx_by_pid
build-positions crp zero is e = cc
build-positions crp (suc zero) is e = cc
build-positions crp (suc (suc zero)) is e = cc
build-positions crp (suc (suc (suc k))) is e = cc

-- With the table that `create` builds, the position that a PID is looked up to lies in the progression,
-- and the precinct there belongs to the component that the PID names.
pub lookup_pid-component {ℓ} :
    {W : Type ℓ} (t : TileHandler W) (pid n : ℕ)
    → t.crp_idx_by_pid ≡ build_crp_idx_by_pid t.crp
    → lookup_pid pid t ≡ some n
    → (x : CrpStatus) × (get_elem? t.crp n ≡ some x) × (x.c ≡ pid % t.csiz)
unfolding lookup_pid
lookup_pid-component t pid n b e = elim (Option-cases (get_elem? t.crp_idx_by_pid (pid % t.csiz))) [
  | inl none_there ↦ absurd (ground (arith, e, none_there))
  | inr (is, at) ↦
      let listed : is ≡ positions (pid % t.csiz) 0 t.crp =
        build-positions t.crp (pid % t.csiz) is
          (ap (λ js. get_elem? js (pid % t.csiz)) (sym b) ∙ at) in
      let found : get_elem? is (pid / t.csiz) ≡ some n = ground (arith, e, at) in
      let (x, there, c, l) =
        positions-Found (pid % t.csiz) 0 t.crp n (pid / t.csiz)
          (ap (λ js. get_elem? js (pid / t.csiz)) (sym listed) ∙ found) in
      let whole : n ≡ n - 0 = omega arith in (x, ap (get_elem? t.crp) whole ∙ there, c)
]
