-- ===== src/Packet/Progression/Orders.antt =====
-- packet_parser/j2k_packet.cpp, prepare_precinct_structure: PRCL visits what PCRL visits.
use rtp_decoder_test.Base.{
  ℕ, zero, suc, ◌+◌, ◌-◌, ◌^◌, ◌≤◌, ◌≡◌, refl, sym, ap, ap₂, ◌∙◌, true, false, Option, none, some,
  List, [], ◌∷◌, ◌++◌, append_assoc, arith, leb,
}
use mathlib.Core.Path.{subst, subst₂, fun_ext}
use mathlib.Core.List.Permᴰ
use mathlib.Core.List.{Permᴰ}
use rtp_decoder_test.Packet.Progression.Visit.{
  Layout, Sequence, no_visits, starts, width, visit, visit_all,
}
use rtp_decoder_test.Packet.Progression.Walk.{
  resolutions, pcrl_visits, guarded, by_resolution, re_max, prcl_visits, steps, sweep, walk_tile,
  Prepared, done, unsupported, prepare_in_order, prepare_precinct_structure, pcrl, prcl,
}
use rtp_decoder_test.Packet.Progression.Commute.{
  Same-refl, Alike, position-Respects, sweep-Respects,
}

module _ {A : Type 0} where
  -- A list that is taken out of the second place and put into the first.
  front : (b x y : List A) → Permᴰ (b ++ (x ++ y)) (x ++ (b ++ y))
  front b x y =
      subst₂ Permᴰ (append_assoc b x y) (append_assoc x b y)
        (Permᴰ.append_right y (Permᴰ.append_comm b x))

  pairwise_blocks : (a b x y : List A) → Permᴰ (a ++ (b ++ (x ++ y))) ((a ++ x) ++ (b ++ y))
  pairwise_blocks a b x y =
      subst (λ z. Permᴰ (a ++ (b ++ (x ++ y))) z) (sym (append_assoc a x (b ++ y)))
        (Permᴰ.append_left a (front b x y))

  -- Three heads and three tails, and each head before its tail.
  three_blocks :
      (a b c x y z : List A)
      → Permᴰ (a ++ (b ++ (c ++ (x ++ (y ++ z))))) ((a ++ x) ++ ((b ++ y) ++ (c ++ z)))
  three_blocks a b c x y z =
      Permᴰ.trans
        (subst (λ w. Permᴰ (a ++ w) ((a ++ x) ++ ((b ++ c) ++ (y ++ z))))
          (append_assoc b c (x ++ (y ++ z))) (pairwise_blocks a (b ++ c) x (y ++ z)))
        (Permᴰ.append_left (a ++ x) (
          subst (λ w. Permᴰ w ((b ++ y) ++ (c ++ z))) (sym (append_assoc b c (y ++ z)))
            (pairwise_blocks b c y z)))

-- The visits of one component in the loops of PRCL.
held : Layout → ℕ → ℕ → ℕ → List (ℕ × ℕ)
held l c zero r = []
held l c (suc n) r = guarded l c r ++ held l c n (r + 1)

by_resolution-held :
    (l : Layout) (n r : ℕ)
    → Permᴰ (by_resolution l n r) (held l 0 n r ++ (held l 1 n r ++ held l 2 n r))
unfolding by_resolution held
by_resolution-held l zero r = Permᴰ.nil
by_resolution-held l (suc n) r =
    let g = λ (c : ℕ). guarded l c r in
    let h = λ (c : ℕ). held l c n (r + 1) in
    let rest = h 0 ++ (h 1 ++ h 2) in
    Permᴰ.trans (Permᴰ.append_left (g 0 ++ g 1 ++ g 2) (by_resolution-held l n (r + 1))) (
      subst (λ w. Permᴰ w ((g 0 ++ h 0) ++ ((g 1 ++ h 1) ++ (g 2 ++ h 2))))
        (sym (append_assoc (g 0 ++ g 1) (g 2) rest ∙ append_assoc (g 0) (g 1) (g 2 ++ rest)))
        (three_blocks (g 0) (g 1) (g 2) (h 0) (h 1) (h 2)))

-- They are all resolutions of the component, where the loop is long enough.
held-resolutions :
    (l : Layout) (c n r k : ℕ)
    → k ≡ (l.cocs c).style.nl + 1 - r
    → k ≤ n
    → held l c n r ≡ resolutions c k r
unfolding held resolutions
held-resolutions l c zero r zero e b = refl
held-resolutions l c zero r (suc k) e b = absurd (omega arith)
held-resolutions l c (suc n) r zero e b =
    let out : leb ((l.cocs c).style.nl + 1) r ≡ true = ground arith in
    rw out (held-resolutions l c n (r + 1) zero (omega arith) (omega arith))
held-resolutions l c (suc n) r (suc k) e b =
    let inside : leb ((l.cocs c).style.nl + 1) r ≡ false = ground arith in
    rw inside
      (ap (λ vs. (c, r) ∷ vs) (held-resolutions l c n (r + 1) k (omega arith) (omega arith)))

re_max-bound :
    (l : Layout)
    → ((l.cocs 0).style.nl + 1 ≤ re_max l)
      × ((l.cocs 1).style.nl + 1 ≤ re_max l)
      × ((l.cocs 2).style.nl + 1 ≤ re_max l)
unfolding re_max
re_max-bound l = (ground arith, ground arith, ground arith)

-- The inner loops of the two orders visit the same components and resolutions.
visits-Permᴰ : (l : Layout) → Permᴰ (pcrl_visits l) (prcl_visits l)
unfolding pcrl_visits prcl_visits
visits-Permᴰ l =
    let (a, b, c) = re_max-bound l in
    let whole = λ (k : ℕ). resolutions k ((l.cocs k).style.nl + 1) 0 in
    Permᴰ.symm (
      subst (λ w. Permᴰ (by_resolution l (re_max l) 0) w)
        (ap₂ ◌++◌ (held-resolutions l 0 (re_max l) 0 ((l.cocs 0).style.nl + 1) (omega arith) a) (
            ap₂ ◌++◌ (held-resolutions l 1 (re_max l) 0 ((l.cocs 1).style.nl + 1) (omega arith) b)
              (held-resolutions l 2 (re_max l) 0 ((l.cocs 2).style.nl + 1) (omega arith) c))
          ∙ sym (append_assoc (whole 0) (whole 1) (whole 2)))
        (by_resolution-held l (re_max l) 0))

-- Both walks fault, or both return the same precincts in some order, or neither supports the order.
abbrev pub SamePrecincts : Option Prepared → Option Prepared → Type 0
SamePrecincts none none = Unit {0}
SamePrecincts (some (done xs)) (some (done ys)) = Permᴰ xs ys
SamePrecincts (some unsupported) (some unsupported) = Unit {0}
SamePrecincts _ _ = ⊥

walk_tile-Alike :
    (fuel : ℕ) (l : Layout) (step : ℕ × ℕ) (vs ws : List (ℕ × ℕ))
    → Permᴰ vs ws
    → Alike (walk_tile fuel l step vs) (walk_tile fuel l step ws)
unfolding walk_tile
walk_tile-Alike fuel l (sx, sy) vs ws d =
    sweep-Respects fuel l.y0 l.y1 (2 ^ sy) _ _
      (λ y. sweep-Respects fuel l.x0 l.x1 (2 ^ sx) _ _ λ x. position-Respects l x y vs ws d)
      no_visits no_visits (Same-refl no_visits)

finish :
    (o p : Option Sequence)
    → Alike o p
    → SamePrecincts
        (elim o [ none ↦ none | some s ↦ some (done s.crp) ])
        (elim p [ none ↦ none | some s ↦ some (done s.crp) ])
finish none none h = tt
finish none (some t) h = absurd h
finish (some s) none h = absurd h
finish (some s) (some t) h = h.precincts

-- The walks of one layout with the visits of the two orders.
orders-SamePrecincts :
    (fuel : ℕ) (l : Layout)
    → SamePrecincts
        (prepare_in_order fuel l (pcrl_visits l))
        (prepare_in_order fuel l (prcl_visits l))
unfolding prepare_in_order
orders-SamePrecincts fuel l = after_steps (steps l)
  where
    after_steps :
        (o : Option (ℕ × ℕ))
        → SamePrecincts
            (elim o [
              | none ↦ none
              | some step ↦ elim (walk_tile fuel l step (pcrl_visits l)) [
                | none ↦ none
                | some s ↦ some (done s.crp)
              ]
            ])
            (elim o [
              | none ↦ none
              | some step ↦ elim (walk_tile fuel l step (prcl_visits l)) [
                | none ↦ none
                | some s ↦ some (done s.crp)
              ]
            ])
    after_steps none = tt
    after_steps (some step) =
        finish _ _ (walk_tile-Alike fuel l step (pcrl_visits l) (prcl_visits l) (visits-Permᴰ l))

-- A layout whose markers have another progression order.
abbrev pub with_order : ℕ → Layout → Layout
with_order po l = record l {
  cocs = λ c. record (l.cocs c) { style = record ((l.cocs c).style) { progression_order = po } };
}

visit_all-with_order :
    (po : ℕ) (l : Layout) (x y : ℕ) (vs : List (ℕ × ℕ)) (s : Sequence)
    → visit_all (with_order po l) x y vs s ≡ visit_all l x y vs s
unfolding visit_all starts width
visit_all-with_order po l x y [] s = refl
visit_all-with_order po l x y (v ∷ vs) s =
    ap (λ (f : Sequence → Option Sequence). elim (visit l x y v s) [ none ↦ none | some t ↦ f t ])
      (fun_ext (visit_all-with_order po l x y vs))

prepare-with_order :
    (po fuel : ℕ) (l : Layout) (vs : List (ℕ × ℕ))
    → prepare_in_order fuel (with_order po l) vs ≡ prepare_in_order fuel l vs
unfolding prepare_in_order walk_tile steps
prepare-with_order po fuel l vs =
    ap
      (λ (body : ℕ → ℕ → Sequence → Option Sequence). elim (steps l) [
        | none ↦ none
        | some step ↦
            elim (sweep fuel l.y0 l.y1 (2 ^ step.1)
              (λ y. sweep fuel l.x0 l.x1 (2 ^ step.0) (body y)) no_visits) [
                | none ↦ none
                | some s ↦ some (done s.crp)
              ]
      ])
      (fun_ext λ y. fun_ext λ x. fun_ext (visit_all-with_order po l x y vs))

-- The structure that is prepared for the order PRCL is that for PCRL but for the order of the
-- precincts: the calls fault, or use up their fuel, both or neither, and where they return, the vectors
-- `crp` are permutations of each other. This holds for all sizes of tiles, resolutions and precincts, and
-- for components with different numbers of levels.
pub prepare-SamePrecincts :
    (fuel : ℕ) (l : Layout)
    → SamePrecincts
        (prepare_precinct_structure fuel (with_order pcrl l))
        (prepare_precinct_structure fuel (with_order prcl l))
unfolding prepare_precinct_structure pcrl_visits prcl_visits by_resolution re_max
prepare-SamePrecincts fuel l =
    subst₂ SamePrecincts (sym (prepare-with_order pcrl fuel l (pcrl_visits l)))
      (sym (prepare-with_order prcl fuel l (prcl_visits l))) (orders-SamePrecincts fuel l)
