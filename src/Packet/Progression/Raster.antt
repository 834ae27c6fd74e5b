-- ===== src/Packet/Progression/Raster.antt =====
-- packet_parser/j2k_packet.cpp, prepare_precinct_structure: the numbers of the precincts of one resolution.
use rtp_decoder_test.Base.{
  ℕ, zero, suc, ◌+◌, ◌*◌, ◌/◌, ◌%◌, ◌^◌, ◌<◌, ◌≡◌, refl, sym, ap, ap₂, ◌∙◌, Bool, true, false, ◌&&◌,
  Bool-cases, inl, inr, Option, none, some, List, [], ◌∷◌, ◌++◌, append-nil, arith, ltb, ◌==◌,
  if◌then◌else◌,
}
use mathlib.Core.Path.{subst}
use rtp_decoder_test.Packet.Progression.Commute.{same→≡, same_refl}
use native.Mathlib.Nat.{add-mul, mul_assoc}
use rtp_decoder_test.Tile.State.{CrpStatus}
use rtp_decoder_test.Packet.Progression.Visit.{
  Layout, Sequence, no_visits, same, next_place, precinct_at, emit, starts, width, enter, visit,
  visit_all,
}
use rtp_decoder_test.Packet.Progression.Walk.{sweep, walk_tile}

-- The numbers of the precincts of a component and resolution, in the order of the progression.
unfoldable pub numbers : ℕ × ℕ → List CrpStatus → List ℕ
numbers v [] = []
numbers v (e ∷ es) =
    let rest = numbers v es in if e.c == v.0 && e.r == v.1 then e.p ∷ rest else rest

-- The first `k` precincts of a resolution row by row, in 16 bits.
unfoldable pub raster : ℕ → List ℕ
raster zero = []
raster (suc k) = raster k ++ (k % 2 ^ 16 ∷ [])

numbers-append :
    (v : ℕ × ℕ) (es : List CrpStatus) (e : CrpStatus)
    → numbers v (es ++ (e ∷ [])) ≡ numbers v es ++ numbers v (e ∷ [])
unfolding numbers
numbers-append v [] e = refl
numbers-append v (d ∷ es) e = elim (Bool-cases (d.c == v.0 && d.r == v.1)) [
  | inl here ↦ rw here (ap (λ ns. d.p ∷ ns) (numbers-append v es e))
  | inr other ↦ rw other (numbers-append v es e)
]

-- A row counter that wraps around does not change the count modulo its size.
wrapped_rows : (rows n : ℕ) → rows % 2 ^ 32 * n % 2 ^ 32 ≡ rows * n % 2 ^ 32
wrapped_rows rows n =
    let q = rows / 2 ^ 32 in
    let split : rows * n ≡ 2 ^ 32 * (q * n) + rows % 2 ^ 32 * n =
      ap (λ t. t * n) (omega arith)
      ∙ add-mul (2 ^ 32 * q) (rows % 2 ^ 32) n
      ∙ ap (λ t. t + rows % 2 ^ 32 * n) (mul_assoc (2 ^ 32) q n) in
    omega (arith, split)

-- The place stands behind `k` precincts.
pub record IsPlace (n k : ℕ) (place : ℕ × ℕ) : Type 0 where
  pub inside : place.0 < n
  pub counted : (place.1 * n + place.0) % 2 ^ 32 ≡ k % 2 ^ 32

next_place-IsPlace :
    (n k : ℕ) (place : ℕ × ℕ)
    → n < 2 ^ 32
    → IsPlace n k place
    → IsPlace n (suc k) (next_place n place)
unfolding next_place
next_place-IsPlace n k (px, py) b h = elim (Bool-cases ((px + 1) % 2 ^ 32 == n)) [
  | inl e ↦ rw e (record {
    inside = omega (arith, h.inside);
    counted = omega (arith, row_ends e, h.counted, wrapped_rows (py + 1) n, add-mul py 1 n);
  })
  | inr e ↦
      rw e (record {
        inside = ground (arith, h.inside);
        counted = ground (arith, h.inside, h.counted);
      })
]
  where
    row_ends : ((px + 1) % 2 ^ 32 == n) ≡ true → px + 1 ≡ n
    row_ends e = ground (arith, h.inside)

-- A precinct is stored under its component and resolution in full.
abbrev pub IsSmall : ℕ × ℕ → Type 0
IsSmall v = (v.0 < 256) × (v.1 < 256)

pub record IsRaster (n : ℕ) (v : ℕ × ℕ) (s : Sequence) : Type 0 where
  pub k : ℕ
  pub listed : numbers v s.crp ≡ raster k
  pub place : IsPlace n k (s.place v)

module _ (n : ℕ) (v : ℕ × ℕ) (narrow : n < 2 ^ 32) (small : IsSmall v) where
  -- A precinct of this component and resolution.
  emit_self : (s : Sequence) → IsRaster n v s → IsRaster n v (emit n v s)
  unfolding emit numbers raster
  emit_self s h = record {
    k = suc h.k;
    listed = numbers-append v s.crp _ ∙ ap₂ ◌++◌ h.listed stored;
    place = rw (same_refl v) (next_place-IsPlace n h.k (s.place v) narrow h.place);
  }
    where
      stored :
          numbers v (record { c = v.0 % 256; r = v.1 % 256; p = precinct_at n (s.place v) } ∷ [])
          ≡ h.k % 2 ^ 16 ∷ []
      stored =
          let here : (v.0 % 256 == v.0 && v.1 % 256 == v.1) ≡ true =
            ground (arith, small.0, small.1) in
          rw here (ap (λ p. p ∷ []) (omega (arith, h.place.counted)))

  -- A precinct of another one.
  emit_other :
      (m : ℕ) (w : ℕ × ℕ) (s : Sequence)
      → IsSmall w
      → same v w ≡ false
      → IsRaster n v s
      → IsRaster n v (emit m w s)
  unfolding emit numbers same
  emit_other m w s t e h = record {
    k = h.k;
    listed = numbers-append v s.crp _ ∙ ap₂ ◌++◌ h.listed unlisted ∙ append-nil (raster h.k);
    place = rw e h.place;
  }
    where
      unlisted :
          numbers v (record { c = w.0 % 256; r = w.1 % 256; p = precinct_at m (s.place w) } ∷ [])
          ≡ []
      unlisted =
          let other : (w.0 % 256 == v.0 && w.1 % 256 == v.1) ≡ false =
            ground (arith, t.0, t.1, e) in
          rw other refl

  emit-IsRaster :
      (l : Layout) (w : ℕ × ℕ) (s : Sequence)
      → width l v ≡ n
      → IsSmall w
      → IsRaster n v s
      → IsRaster n v (emit (width l w) w s)
  emit-IsRaster l w s e t h = elim (Bool-cases (same v w)) [
    | inr other ↦ emit_other (width l w) w s t other h
    | inl self ↦
        subst (λ u. IsRaster n v (emit (width l u) u s)) (same→≡ v w self)
          (subst (λ m. IsRaster n v (emit m v s)) (sym e) (emit_self s h))
  ]

-- What holds of the state that a step leads to, if it does not fault.
abbrev pub Holds : (Sequence → Type 0) → Option Sequence → Type 0
Holds P none = Unit {0}
Holds P (some s) = P s

module _ (P : Sequence → Type 0) where
  then-Holds :
      (o : Option Sequence) (f : Sequence → Option Sequence)
      → Holds P o
      → ((s : Sequence) → P s → Holds P (f s))
      → Holds P (elim o [ none ↦ none | some s ↦ f s ])
  then-Holds none f h k = tt
  then-Holds (some s) f h k = k s h

  sweep-Holds :
      (fuel x x1 step : ℕ) (body : ℕ → Sequence → Option Sequence)
      → ((x : ℕ) (s : Sequence) → P s → Holds P (body x s))
      → (s : Sequence) → P s
      → Holds P (sweep fuel x x1 step body s)
  unfolding sweep
  sweep-Holds zero x x1 step body h s k = tt
  sweep-Holds (suc fuel) x x1 step body h s k = elim (Bool-cases (ltb x x1)) [
    | inr e ↦ rw e k
    | inl e ↦
        rw e (
          then-Holds (body x s) _ (h x s k) (sweep-Holds fuel ((x + step) % 2 ^ 32) x1 step body h))
  ]

abbrev pub AllSmall : List (ℕ × ℕ) → Type 0
AllSmall [] = Unit {0}
AllSmall (v ∷ vs) = IsSmall v × AllSmall vs

module _ (l : Layout) (v : ℕ × ℕ) (wide : 0 < width l v) (narrow : width l v < 2 ^ 32)
    (small : IsSmall v) where
  abbrev P : Sequence → Type 0
  P = IsRaster (width l v) v

  enter-IsRaster :
      (o : Option Bool) (w : ℕ × ℕ) (s : Sequence)
      → IsSmall w
      → P s
      → Holds P (enter o (width l w) w s)
  unfolding enter
  enter-IsRaster none w s t h = tt
  enter-IsRaster (some false) w s t h = h
  enter-IsRaster (some true) w s t h = emit-IsRaster (width l v) v narrow small l w s refl t h

  visit_all-IsRaster :
      (x y : ℕ) (vs : List (ℕ × ℕ)) (s : Sequence)
      → AllSmall vs
      → P s
      → Holds P (visit_all l x y vs s)
  unfolding visit_all
  visit_all-IsRaster x y [] s a h = h
  visit_all-IsRaster x y (w ∷ ws) s a h =
      then-Holds P (visit l x y w s) _ (enter-IsRaster (starts l x y w) w s a.0 h)
        (λ t k. visit_all-IsRaster x y ws t a.1 k)

  no_visits-IsRaster : P no_visits
  unfolding numbers raster
  no_visits-IsRaster = record {
    k = 0;
    listed = refl;
    place = record { inside = wide; counted = omega arith };
  }

  pub walk_tile-IsRaster :
      (fuel : ℕ) (step : ℕ × ℕ) (vs : List (ℕ × ℕ))
      → AllSmall vs
      → Holds P (walk_tile fuel l step vs)
  unfolding walk_tile
  walk_tile-IsRaster fuel (sx, sy) vs a =
      sweep-Holds P fuel l.y0 l.y1 (2 ^ sy) _
        (λ y. sweep-Holds P fuel l.x0 l.x1 (2 ^ sx) _ λ x s h. visit_all-IsRaster x y vs s a h)
        no_visits no_visits-IsRaster
