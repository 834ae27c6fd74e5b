-- ===== src/Packet/Progression/Walk.antt =====
-- packet_parser/j2k_packet.cpp, prepare_precinct_structure: its loops, in the two orders. The message is
-- left out.
use rtp_decoder_test.Base.{
  ℕ, zero, suc, ◌+◌, ◌%◌, ◌^◌, min, Option, none, some, List, [], ◌∷◌, ◌++◌, ltb, leb, ◌==◌,
  if◌then◌else◌, get_elem?,
}
use rtp_decoder_test.Tile.State.{CrpStatus}
use rtp_decoder_test.Packet.Progression.Visit.{Layout, Sequence, no_visits, visit_all}

-- The resolutions of one component, for `n` more of them from `r` on.
unfoldable pub resolutions : ℕ → ℕ → ℕ → List (ℕ × ℕ)
resolutions c zero r = []
resolutions c (suc n) r = (c, r) ∷ resolutions c n (r + 1)

-- The inner loops of PCRL: component by component.
unfoldable pub pcrl_visits : Layout → List (ℕ × ℕ)
pcrl_visits l =
    resolutions 0 ((l.cocs 0).style.nl + 1) 0
    ++ resolutions 1 ((l.cocs 1).style.nl + 1) 0
    ++ resolutions 2 ((l.cocs 2).style.nl + 1) 0

-- The guard of PRCL on a component that does not have the resolution.
abbrev pub guarded : Layout → ℕ → ℕ → List (ℕ × ℕ)
guarded l c r = if leb ((l.cocs c).style.nl + 1) r then [] else (c, r) ∷ []

-- The inner loops of PRCL: resolution by resolution, for `n` more of them from `r` on.
unfoldable pub by_resolution : Layout → ℕ → ℕ → List (ℕ × ℕ)
by_resolution l zero r = []
by_resolution l (suc n) r =
    guarded l 0 r ++ guarded l 1 r ++ guarded l 2 r ++ by_resolution l n (r + 1)

-- The global bound on the resolutions.
unfoldable pub re_max : Layout → ℕ
re_max l =
    let larger = λ (a b : ℕ). if ltb b a then a else b in
    larger ((l.cocs 2).style.nl + 1) (larger ((l.cocs 1).style.nl + 1) ((l.cocs 0).style.nl + 1))

unfoldable pub prcl_visits : Layout → List (ℕ × ℕ)
prcl_visits l = by_resolution l (re_max l) 0

-- The smallest exponents of the precinct sizes, for `n` more resolutions from `r` on.
unfoldable pub least_sizes : ℕ → ℕ → List (ℕ × ℕ) → ℕ × ℕ → Option (ℕ × ℕ)
least_sizes zero r pr step = some step
least_sizes (suc n) r pr (step_x, step_y) = elim (get_elem? pr r) [
  | none ↦ none
  | some (prw, prh) ↦ least_sizes n (r + 1) pr (min step_x prw, min step_y prh)
]

-- The exponents of the steps, over the 3 components.
unfoldable pub steps : Layout → Option (ℕ × ℕ)
steps l = elim (least_sizes ((l.cocs 0).style.nl + 1) 0 (l.cocs 0).style.pr (32, 32)) [
  | none ↦ none
  | some first ↦ elim (least_sizes ((l.cocs 1).style.nl + 1) 0 (l.cocs 1).style.pr first) [
    | none ↦ none
    | some second ↦ least_sizes ((l.cocs 2).style.nl + 1) 0 (l.cocs 2).style.pr second
  ]
]

-- A loop over the positions from `x` to `x1`, on fuel.
unfoldable pub sweep : ℕ → ℕ → ℕ → ℕ → (ℕ → Sequence → Option Sequence) → Sequence → Option Sequence
sweep zero x x1 step body s = none
sweep (suc fuel) x x1 step body s =
    if ltb x x1
    then elim (body x s) [ none ↦ none | some t ↦ sweep fuel ((x + step) % 2 ^ 32) x1 step body t ]
    else some s

-- The two outer loops, with the inner ones as a list.
unfoldable pub walk_tile : ℕ → Layout → ℕ × ℕ → List (ℕ × ℕ) → Option Sequence
walk_tile fuel l (step_x, step_y) visits =
    sweep fuel l.y0 l.y1 (2 ^ step_y)
      (λ y. sweep fuel l.x0 l.x1 (2 ^ step_x) (λ x. visit_all l x y visits)) no_visits

abbrev pub pcrl : ℕ
pcrl = 3

abbrev pub prcl : ℕ
prcl = 5

-- The result of the call: the vector `crp`, or EXIT_FAILURE for an order that is not supported.
pub data Prepared : Type 0 where
  done : List CrpStatus → Prepared
  unsupported : Prepared

-- The walk with its steps.
unfoldable pub prepare_in_order : ℕ → Layout → List (ℕ × ℕ) → Option Prepared
prepare_in_order fuel l visits = elim (steps l) [
  | none ↦ none
  | some step ↦ elim (walk_tile fuel l step visits) [ none ↦ none | some s ↦ some (done s.crp) ]
]

unfoldable pub prepare_precinct_structure : ℕ → Layout → Option Prepared
prepare_precinct_structure fuel l =
    let po = (l.cocs 0).style.progression_order in
    if po == pcrl
    then prepare_in_order fuel l (pcrl_visits l)
    else (if po == prcl then prepare_in_order fuel l (prcl_visits l) else some unsupported)
