-- ===== src/Packet/Progression/Numbers.antt =====
-- packet_parser/j2k_packet.cpp, prepare_precinct_structure: the result of the whole call has the precincts of
-- each resolution in their order.
use rtp_decoder_test.Base.{
  ℕ, zero, suc, ◌+◌, ◌^◌, ◌≤◌, ◌<◌, ◌≡◌, Bool-cases, inl, inr, Option, none, some, List, [], ◌∷◌,
  ◌++◌, arith, leb, ◌==◌,
}
use rtp_decoder_test.Packet.Progression.Visit.{Layout, Sequence, width}
use rtp_decoder_test.Packet.Progression.Walk.{
  resolutions, pcrl_visits, guarded, by_resolution, re_max, prcl_visits, steps, walk_tile, pcrl,
  prcl, Prepared, done, unsupported, prepare_in_order, prepare_precinct_structure,
}
use rtp_decoder_test.Packet.Progression.Raster.{
  numbers, raster, IsSmall, AllSmall, IsRaster, Holds, walk_tile-IsRaster,
}

append-AllSmall : (vs ws : List (ℕ × ℕ)) → AllSmall vs → AllSmall ws → AllSmall (vs ++ ws)
append-AllSmall [] ws h k = k
append-AllSmall (v ∷ vs) ws h k = (h.0, append-AllSmall vs ws h.1 k)

resolutions-AllSmall : (c n r : ℕ) → c < 256 → r + n ≤ 256 → AllSmall (resolutions c n r)
unfolding resolutions
resolutions-AllSmall c zero r h k = tt
resolutions-AllSmall c (suc n) r h k =
    ((h, omega arith), resolutions-AllSmall c n (r + 1) h (omega arith))

-- The number of levels, which is a byte.
abbrev pub IsByte : ℕ → Layout → Type 0
IsByte c l = (l.cocs c).style.nl < 256

module _ (l : Layout) (a : IsByte 0 l) (b : IsByte 1 l) (c : IsByte 2 l) where
  pcrl_visits-AllSmall : AllSmall (pcrl_visits l)
  unfolding pcrl_visits
  pcrl_visits-AllSmall =
      append-AllSmall _ _
        (append-AllSmall _ _ (resolutions-AllSmall 0 _ 0 (omega arith) (omega arith))
          (resolutions-AllSmall 1 _ 0 (omega arith) (omega arith)))
        (resolutions-AllSmall 2 _ 0 (omega arith) (omega arith))

  guarded-AllSmall : (k r : ℕ) → k < 256 → r < 256 → AllSmall (guarded l k r)
  guarded-AllSmall k r h j = elim (Bool-cases (leb ((l.cocs k).style.nl + 1) r)) [
    | inl out ↦ rw out tt
    | inr inside ↦ rw inside ((h, j), tt)
  ]

  by_resolution-AllSmall : (n r : ℕ) → r + n ≤ 256 → AllSmall (by_resolution l n r)
  unfolding by_resolution
  by_resolution-AllSmall zero r h = tt
  by_resolution-AllSmall (suc n) r h =
      append-AllSmall _ _
        (append-AllSmall _ _
          (append-AllSmall _ _ (guarded-AllSmall 0 r (omega arith) (omega arith))
            (guarded-AllSmall 1 r (omega arith) (omega arith)))
          (guarded-AllSmall 2 r (omega arith) (omega arith)))
        (by_resolution-AllSmall n (r + 1) (omega arith))

  prcl_visits-AllSmall : AllSmall (prcl_visits l)
  unfolding prcl_visits re_max
  prcl_visits-AllSmall = by_resolution-AllSmall (re_max l) 0 (ground arith)

-- The vector `crp` names the precincts of `v` row by row, from the first one on.
abbrev pub IsNumbered : ℕ × ℕ → Option Prepared → Type 0
IsNumbered v none = Unit {0}
IsNumbered v (some unsupported) = Unit {0}
IsNumbered v (some (done crp)) = (k : ℕ) × (numbers v crp ≡ raster k)

module _ (l : Layout) (v : ℕ × ℕ) (wide : 0 < width l v) (narrow : width l v < 2 ^ 32)
    (small : IsSmall v) where
  finish :
      (o : Option Sequence)
      → Holds (IsRaster (width l v) v) o
      → IsNumbered v (elim o [ none ↦ none | some s ↦ some (done s.crp) ])
  finish none h = tt
  finish (some s) h = (h.k, h.listed)

  in_order :
      (fuel : ℕ) (vs : List (ℕ × ℕ)) → AllSmall vs → IsNumbered v (prepare_in_order fuel l vs)
  unfolding prepare_in_order
  in_order fuel vs h = after_steps (steps l)
    where
      after_steps :
          (o : Option (ℕ × ℕ))
          → IsNumbered v (elim o [
            | none ↦ none
            | some step ↦ elim (walk_tile fuel l step vs) [
              | none ↦ none
              | some s ↦ some (done s.crp)
            ]
          ])
      after_steps none = tt
      after_steps (some step) =
          finish (walk_tile fuel l step vs)
            (walk_tile-IsRaster l v wide narrow small fuel step vs h)

-- In both orders, and for every component and resolution that is at least one precinct wide, the
-- vector `crp` that is prepared names its precincts row by row and without a gap: the `k`-th visit of the
-- resolution names its precinct `k`, in 16 bits. The numbers of levels are bytes.
pub prepare-IsNumbered :
    (fuel : ℕ) (l : Layout) (v : ℕ × ℕ)
    → IsByte 0 l
    → IsByte 1 l
    → IsByte 2 l
    → 0 < width l v
    → width l v < 2 ^ 32
    → IsSmall v
    → IsNumbered v (prepare_precinct_structure fuel l)
unfolding prepare_precinct_structure
prepare-IsNumbered fuel l v a b c wide narrow small =
    elim (Bool-cases ((l.cocs 0).style.progression_order == pcrl)) [
      | inl first ↦
          rw first
            (in_order l v wide narrow small fuel (pcrl_visits l) (pcrl_visits-AllSmall l a b c))
      | inr other ↦ rw other (elim (Bool-cases ((l.cocs 0).style.progression_order == prcl)) [
        | inl second ↦
            rw second
              (in_order l v wide narrow small fuel (prcl_visits l) (prcl_visits-AllSmall l a b c))
        | inr none_of_both ↦ rw none_of_both tt
      ])
    ]
