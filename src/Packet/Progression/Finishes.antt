-- ===== src/Packet/Progression/Finishes.antt =====
-- packet_parser/j2k_packet.cpp, prepare_precinct_structure: the whole call returns.
use rtp_decoder_test.Base.{
  ℕ, zero, suc, ◌+◌, ◌^◌, ◌≤◌, ◌<◌, ◌≡◌, refl, Bool-cases, inl, inr, Option, none, some, List,
  arith, ◌==◌, min,
}
use native.Mathlib.Nat.{one-le-pow, pow-le-pow_right}
use rtp_decoder_test.Packet.Progression.Visit.{Layout, Sequence, no_visits}
use rtp_decoder_test.Packet.Progression.Walk.{
  pcrl_visits, by_resolution, re_max, prcl_visits, least_sizes, steps, walk_tile, Prepared, done,
  prepare_in_order, prepare_precinct_structure, pcrl, prcl,
}
use rtp_decoder_test.Packet.Progression.Returns.{
  HasLevels, IsSome, AllLevels, visit_all-IsSome, sweep-IsSome, append-AllLevels,
  resolutions-AllLevels, guarded-AllLevels,
}

-- The least exponents are read, and they are no more than those before them, and of 4 bits behind one
-- resolution.
record IsLeast (n : ℕ) (step least : ℕ × ℕ) : Type 0 where
  x_kept : least.0 ≤ step.0
  y_kept : least.1 ≤ step.1
  x_bound : 1 ≤ n → least.0 < 16
  y_bound : 1 ≤ n → least.1 < 16

least_sizes-IsLeast :
    (l : Layout) (c n r : ℕ) (step : ℕ × ℕ)
    → HasLevels l c
    → r + n ≤ (l.cocs c).style.nl + 1
    → (q : ℕ × ℕ) × (least_sizes n r (l.cocs c).style.pr step ≡ some q) × IsLeast n step q
unfolding least_sizes
least_sizes-IsLeast l c zero r step h b = (
  step,
  refl,
  record {
    x_kept = omega arith;
    y_kept = omega arith;
    x_bound = λ p. absurd (omega arith);
    y_bound = λ p. absurd (omega arith);
  },
)
least_sizes-IsLeast l c (suc n) r (sx, sy) h b =
    let v = h.level r (omega arith) in
    let (q, e, k) =
      least_sizes-IsLeast l c n (r + 1) (min sx v.prw, min sy v.prh) h (omega arith) in
    (
      q,
      rw (v.sizes, least_sizes) e,
      record {
        x_kept = omega (arith, k.x_kept);
        y_kept = omega (arith, k.y_kept);
        x_bound = λ p. omega (arith, k.x_kept, v.narrow);
        y_bound = λ p. omega (arith, k.y_kept, v.low);
      },
    )

module _ (l : Layout) (a : HasLevels l 0) (b : HasLevels l 1) (c : HasLevels l 2) where
  steps-some : (q : ℕ × ℕ) × (steps l ≡ some q) × (q.0 < 16) × (q.1 < 16)
  unfolding steps
  steps-some =
      let (o, e, h) =
        least_sizes-IsLeast l 0 ((l.cocs 0).style.nl + 1) 0 (32, 32) a (omega arith) in
      let (p, f, k) = least_sizes-IsLeast l 1 ((l.cocs 1).style.nl + 1) 0 o b (omega arith) in
      let (q, g, j) = least_sizes-IsLeast l 2 ((l.cocs 2).style.nl + 1) 0 p c (omega arith) in
      (
        q,
        rw (e, steps) (rw f g),
        omega (arith, j.x_bound (omega arith)),
        omega (arith, j.y_bound (omega arith)),
      )

  pcrl-AllLevels : AllLevels l (pcrl_visits l)
  unfolding pcrl_visits
  pcrl-AllLevels =
      append-AllLevels l _ _
        (append-AllLevels l _ _ (resolutions-AllLevels l 0 _ 0 a (omega arith))
          (resolutions-AllLevels l 1 _ 0 b (omega arith)))
        (resolutions-AllLevels l 2 _ 0 c (omega arith))

  by_resolution-AllLevels : (n r : ℕ) → AllLevels l (by_resolution l n r)
  unfolding by_resolution
  by_resolution-AllLevels zero r = tt
  by_resolution-AllLevels (suc n) r =
      append-AllLevels l _ _
        (append-AllLevels l _ _
          (append-AllLevels l _ _ (guarded-AllLevels l 0 r a) (guarded-AllLevels l 1 r b))
          (guarded-AllLevels l 2 r c))
        (by_resolution-AllLevels n (r + 1))

  -- Fuel for the positions of the tile, whose edges are those of an int32_t.
  module _ (fuel : ℕ) (wide : l.x1 < fuel) (high : l.y1 < fuel) (x_edge : l.x1 < 2 ^ 31)
      (y_edge : l.y1 < 2 ^ 31) where
    walk_tile-IsSome :
        (q : ℕ × ℕ) (vs : List (ℕ × ℕ))
        → q.0 < 16
        → q.1 < 16
        → AllLevels l vs
        → IsSome (walk_tile fuel l q vs)
    unfolding walk_tile
    walk_tile-IsSome (sx, sy) vs p r h =
        sweep-IsSome fuel l.y0 l.y1 (2 ^ sy) _ (one-le-pow sy 2 (omega arith))
          (omega (arith, pow-le-pow_right two {i = sy} {j = 15} (omega arith))) (omega arith)
          (λ y.
            sweep-IsSome fuel l.x0 l.x1 (2 ^ sx) _ (one-le-pow sx 2 (omega arith))
              (omega (arith, pow-le-pow_right two {i = sx} {j = 15} (omega arith))) (omega arith)
              (λ x s. visit_all-IsSome l x y vs s h))
          no_visits
      where
        two : 0 < 2
        two = omega arith

    in_order-IsSome : (vs : List (ℕ × ℕ)) → AllLevels l vs → IsSome (prepare_in_order fuel l vs)
    unfolding prepare_in_order
    in_order-IsSome vs h =
        let (q, e, p, r) = steps-some in
        rw (e, prepare_in_order) (finish (walk_tile fuel l q vs) (walk_tile-IsSome q vs p r h))
      where
        finish :
            (o : Option Sequence)
            → IsSome o
            → IsSome {A = Prepared} (elim o [ none ↦ none | some s ↦ some (done s.crp) ])
        finish none k = absurd k
        finish (some s) k = tt

-- Where the layout has the resolutions of its three components, their precinct sizes and depths, and no
-- grid is 0 in 32 bits, the call returns, in every progression order, with fuel for more positions than the
-- edges of the tile, which are below 2 ^ 31: no loop runs on, and no array is read behind its end.
pub prepare-IsSome :
    (fuel : ℕ) (l : Layout)
    → HasLevels l 0
    → HasLevels l 1
    → HasLevels l 2
    → l.x1 < fuel
    → l.y1 < fuel
    → l.x1 < 2 ^ 31
    → l.y1 < 2 ^ 31
    → IsSome (prepare_precinct_structure fuel l)
unfolding prepare_precinct_structure prcl_visits
prepare-IsSome fuel l a b c wide high x_edge y_edge =
    elim (Bool-cases ((l.cocs 0).style.progression_order == pcrl)) [
      | inl first ↦ rw first (
          in_order-IsSome l a b c fuel wide high x_edge y_edge (pcrl_visits l)
            (pcrl-AllLevels l a b c))
      | inr other ↦ rw other (elim (Bool-cases ((l.cocs 0).style.progression_order == prcl)) [
        | inl second ↦ rw second (
            in_order-IsSome l a b c fuel wide high x_edge y_edge (prcl_visits l)
              (by_resolution-AllLevels l a b c (re_max l) 0))
        | inr neither ↦ rw neither tt
      ])
    ]
