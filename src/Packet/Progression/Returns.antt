-- ===== src/Packet/Progression/Returns.antt =====
-- packet_parser/j2k_packet.cpp, prepare_precinct_structure: the walk of a tile ends.
use rtp_decoder_test.Base.{
  ℕ, zero, suc, ◌+◌, ◌-◌, ◌*◌, ◌%◌, ◌^◌, ◌≤◌, ◌<◌, ◌≡◌, refl, sym, Bool, true, false, not, ◌||◌,
  ◌&&◌, Bool-cases, inl, inr, Option, none, some, List, [], ◌∷◌, ◌++◌, arith, ltb, leb, ◌==◌,
  get_elem?,
}
use mathlib.Core.Path.{subst}
use rtp_decoder_test.Packet.Progression.Visit.{
  Resolution, Layout, Sequence, starts_at, starts, width, enter, visit, visit_all,
}
use rtp_decoder_test.Packet.Progression.Walk.{resolutions, guarded, sweep}

-- The grid on which precincts start, in 32 bits.
abbrev pub grid : ℕ → ℕ → ℕ → ℕ
grid sub size depth = sub * (2 ^ (size + depth) % 2 ^ 32) % 2 ^ 32

-- The layout has what the walk reads for component `c` and resolution `r`: the exponents of the precinct
-- sizes are of 4 bits, and the grids are not 0.
pub record HasLevel (l : Layout) (c r : ℕ) : Type 0 where
  pub rp : Resolution
  pub xnl : ℕ
  pub ynl : ℕ
  pub prw : ℕ
  pub prh : ℕ
  pub resolution : get_elem? (l.tcomp c).res r ≡ some rp
  pub hor : get_elem? l.dfs.hor_depth ((l.cocs c).style.nl - r) ≡ some xnl
  pub ver : get_elem? l.dfs.ver_depth ((l.cocs c).style.nl - r) ≡ some ynl
  pub sizes : get_elem? (l.cocs c).style.pr r ≡ some (prw, prh)
  pub narrow : prw < 16
  pub low : prh < 16
  pub x_grid : 0 < grid (l.tcomp c).sub_x prw xnl
  pub y_grid : 0 < grid (l.tcomp c).sub_y prh ynl

pub record HasLevels (l : Layout) (c : ℕ) : Type 0 where
  pub level : (r : ℕ) → r ≤ (l.cocs c).style.nl → HasLevel l c r

starts_at-some :
    (x sub size depth edge res_edge : ℕ)
    → 0 < grid sub size depth
    → (b : Bool) × (starts_at x sub size depth edge res_edge ≡ some b)
unfolding starts_at
starts_at-some x sub size depth edge res_edge h = (
  x % grid sub size depth == 0
      || (x == edge && not (res_edge * 2 ^ depth % 2 ^ 32 % (2 ^ (size + depth) % 2 ^ 32) == 0)),
  rw (not_zero h) refl,
)
  where
    not_zero : 0 < grid sub size depth → (grid sub size depth == 0) ≡ false
    not_zero p = ground (arith, p)

starts-some :
    (l : Layout) (x y c r : ℕ) → HasLevel l c r → (b : Bool) × (starts l x y (c, r) ≡ some b)
unfolding starts
starts-some l x y c r h =
    let (p, e) = starts_at-some x (l.tcomp c).sub_x h.prw h.xnl l.x0 h.rp.x0 h.x_grid in
    let (q, f) = starts_at-some y (l.tcomp c).sub_y h.prh h.ynl l.y0 h.rp.y0 h.y_grid in
    elim (Bool-cases p) [
      | inl here ↦
          (q, rw (h.resolution, starts) (rw h.hor (rw h.ver (rw h.sizes (rw e (rw here f))))))
      | inr away ↦ (
        false,
        rw (h.resolution, starts) (rw h.hor (rw h.ver (rw h.sizes (rw e (rw away refl))))),
      )
    ]

abbrev pub IsSome : {A : Type 0} → Option A → Type 0
IsSome none = ⊥
IsSome (some a) = Unit {0}

then-IsSome :
    (o : Option Sequence) (f : Sequence → Option Sequence)
    → IsSome o
    → ((s : Sequence) → IsSome (f s))
    → IsSome (elim o [ none ↦ none | some s ↦ f s ])
then-IsSome none f h k = absurd h
then-IsSome (some s) f h k = k s

abbrev pub AllLevels : Layout → List (ℕ × ℕ) → Type 0
AllLevels l [] = Unit {0}
AllLevels l (v ∷ vs) = HasLevel l v.0 v.1 × AllLevels l vs

pub visit_all-IsSome :
    (l : Layout) (x y : ℕ) (vs : List (ℕ × ℕ)) (s : Sequence)
    → AllLevels l vs
    → IsSome (visit_all l x y vs s)
unfolding visit_all enter
visit_all-IsSome l x y [] s h = tt
visit_all-IsSome l x y (v ∷ vs) s h =
    let (b, e) = starts-some l x y v.0 v.1 h.0 in
    then-IsSome (visit l x y v s) _
      (subst (λ o. IsSome (enter o (width l v) v s)) (sym e) (entered b))
      (λ t. visit_all-IsSome l x y vs t h.1)
  where
    entered : (b : Bool) → IsSome (enter (some b) (width l v) v s)
    entered true = tt
    entered false = tt

-- A loop with more fuel than there are numbers before its end, whose body returns.
pub sweep-IsSome :
    (fuel x x1 step : ℕ) (body : ℕ → Sequence → Option Sequence)
    → 0 < step
    → x1 + step ≤ 2 ^ 32
    → x1 - x < fuel
    → ((x : ℕ) (s : Sequence) → IsSome (body x s))
    → (s : Sequence) → IsSome (sweep fuel x x1 step body s)
unfolding sweep
sweep-IsSome zero x x1 step body p b f h s = absurd (omega arith)
sweep-IsSome (suc fuel) x x1 step body p b f h s = elim (Bool-cases (ltb x x1)) [
  | inr e ↦ rw e tt
  | inl e ↦ rw e (
      then-IsSome (body x s) _ (h x s)
        (sweep-IsSome fuel ((x + step) % 2 ^ 32) x1 step body p b (ground (arith, e)) h))
]

pub append-AllLevels :
    (l : Layout) (vs ws : List (ℕ × ℕ)) → AllLevels l vs → AllLevels l ws → AllLevels l (vs ++ ws)
append-AllLevels l [] ws h k = k
append-AllLevels l (v ∷ vs) ws h k = (h.0, append-AllLevels l vs ws h.1 k)

pub resolutions-AllLevels :
    (l : Layout) (c n r : ℕ)
    → HasLevels l c
    → r + n ≤ (l.cocs c).style.nl + 1
    → AllLevels l (resolutions c n r)
unfolding resolutions
resolutions-AllLevels l c zero r h b = tt
resolutions-AllLevels l c (suc n) r h b =
    (h.level r (omega arith), resolutions-AllLevels l c n (r + 1) h (omega arith))

pub guarded-AllLevels : (l : Layout) (c r : ℕ) → HasLevels l c → AllLevels l (guarded l c r)
guarded-AllLevels l c r h = elim (Bool-cases (leb ((l.cocs c).style.nl + 1) r)) [
  | inl out ↦ rw out tt
  | inr inside ↦ rw inside (h.level r (ground (arith, inside)), tt)
]
