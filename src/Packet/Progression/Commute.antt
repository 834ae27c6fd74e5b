-- ===== src/Packet/Progression/Commute.antt =====
-- packet_parser/j2k_packet.cpp, prepare_precinct_structure: the visits of one position commute, up to the
-- order of the precincts.
use rtp_decoder_test.Base.{
  ℕ, ◌≡◌, refl, sym, ap₂, ◌∙◌, Bool, true, false, Bool-cases, inl, inr, Option, none, some, List,
  [], ◌∷◌, ◌++◌, append_assoc, arith, if◌then◌else◌, zero, suc, ◌+◌, ◌%◌, ◌^◌, ltb,
}
use mathlib.Core.Path.{subst, subst₂, fun_ext}
use mathlib.Core.List.Permᴰ
use mathlib.Core.List.{Permᴰ}
use rtp_decoder_test.Tile.State.{CrpStatus}
use rtp_decoder_test.Packet.Progression.Visit.{
  Layout, Sequence, same, next_place, emit, starts, width, enter, visit, visit_all,
}
use rtp_decoder_test.Packet.Progression.Walk.{sweep}

-- The same places, and the same precincts in some order.
pub record Same (s t : Sequence) : Type 0 where
  pub places : s.place ≡ t.place
  pub precincts : Permᴰ s.crp t.crp

pub Same-refl : (s : Sequence) → Same s s
Same-refl s = record { places = refl; precincts = Permᴰ.refl s.crp }

Same-trans : (s t u : Sequence) → Same s t → Same t u → Same s u
Same-trans s t u h k = record {
  places = h.places ∙ k.places;
  precincts = Permᴰ.trans h.precincts k.precincts;
}

abbrev pub Alike : Option Sequence → Option Sequence → Type 0
Alike none none = Unit {0}
Alike none (some t) = ⊥
Alike (some s) none = ⊥
Alike (some s) (some t) = Same s t

Alike-refl : (o : Option Sequence) → Alike o o
Alike-refl none = tt
Alike-refl (some s) = Same-refl s

Alike-trans : (o p q : Option Sequence) → Alike o p → Alike p q → Alike o q
Alike-trans none none none h k = tt
Alike-trans none none (some u) h k = absurd k
Alike-trans none (some t) q h k = absurd h
Alike-trans (some s) none q h k = absurd h
Alike-trans (some s) (some t) none h k = absurd k
Alike-trans (some s) (some t) (some u) h k = Same-trans s t u h k

-- A step that does not tell apart what is the same.
abbrev pub Respects : (Sequence → Option Sequence) → (Sequence → Option Sequence) → Type 0
Respects f g = (s t : Sequence) → Same s t → Alike (f s) (g t)

then-Alike :
    (o p : Option Sequence) (f g : Sequence → Option Sequence)
    → Alike o p
    → Respects f g
    → Alike (elim o [ none ↦ none | some s ↦ f s ]) (elim p [ none ↦ none | some t ↦ g t ])
then-Alike none none f g h k = tt
then-Alike none (some t) f g h k = absurd h
then-Alike (some s) none f g h k = absurd h
then-Alike (some s) (some t) f g h k = k s t h

emit-Same : (npw : ℕ) (v : ℕ × ℕ) (s t : Sequence) → Same s t → Same (emit npw v s) (emit npw v t)
unfolding emit
emit-Same npw v s t h =
    subst (λ f. Same (emit npw v s) (emit npw v (record { place = f; crp = t.crp }))) h.places
      (record { places = refl; precincts = Permᴰ.append_right _ h.precincts })

enter-Respects : (o : Option Bool) (n : ℕ) (v : ℕ × ℕ) → Respects (enter o n v) (enter o n v)
unfolding enter
enter-Respects none n v s t h = tt
enter-Respects (some false) n v s t h = h
enter-Respects (some true) n v s t h = emit-Same n v s t h

visit_all-Respects :
    (l : Layout) (x y : ℕ) (vs : List (ℕ × ℕ)) → Respects (visit_all l x y vs) (visit_all l x y vs)
unfolding visit_all
visit_all-Respects l x y [] s t h = h
visit_all-Respects l x y (v ∷ vs) s t h =
    then-Alike (visit l x y v s) (visit l x y v t) _ _
      (enter-Respects (starts l x y v) (width l v) v s t h) (visit_all-Respects l x y vs)

swap_last :
    (cs : List CrpStatus) (a b : CrpStatus)
    → Permᴰ (cs ++ (a ∷ []) ++ (b ∷ [])) (cs ++ (b ∷ []) ++ (a ∷ []))
swap_last cs a b =
    subst₂ Permᴰ (sym (append_assoc cs (a ∷ []) (b ∷ []))) (sym (append_assoc cs (b ∷ []) (a ∷ [])))
      (Permᴰ.append_left cs (Permᴰ.swap refl refl))

pub same→≡ : (v w : ℕ × ℕ) → same v w ≡ true → v ≡ w
unfolding same
same→≡ (a, b) (c, d) h = ap₂ (λ x y. (x, y)) (ground (arith, h)) (ground (arith, h))

pub same_refl : (v : ℕ × ℕ) → same v v ≡ true
unfolding same
same_refl (a, b) = ground arith

same_comm : (v w : ℕ × ℕ) → same v w ≡ false → same w v ≡ false
same_comm v w h = elim (Bool-cases (same w v)) [
  | inr e ↦ e
  | inl e ↦ absurd (cc (subst (λ u. same v u ≡ true) (sym (same→≡ w v e)) (same_refl v), h))
]

-- Two cells that are set one after the other, in either order.
set_comm :
    {A : Type 0} (f : ℕ × ℕ → A) (v w u : ℕ × ℕ) (a b : A)
    → same v w ≡ false
    → (if same u w then b else (if same u v then a else f u))
      ≡ (if same u v then a else (if same u w then b else f u))
set_comm f v w u a b h = elim (Bool-cases (same u w)) [
  | inr e ↦ rw e refl
  | inl e ↦ elim (Bool-cases (same u v)) [
    | inr k ↦ rw e (rw k refl)
    | inl k ↦ absurd (cc (subst (λ x. same x w ≡ true) (same→≡ u v k) e, h))
  ]
]

emit_comm :
    (n m : ℕ) (v w : ℕ × ℕ) (s : Sequence)
    → same v w ≡ false
    → Same (emit m w (emit n v s)) (emit n v (emit m w s))
unfolding emit
emit_comm n m v w s h =
    rw (h, same_comm v w h)
      (record {
        places =
            fun_ext
              λ u. set_comm s.place v w u (next_place n (s.place v)) (next_place m (s.place w)) h;
        precincts = swap_last s.crp _ _;
      })

-- The rest of the visits behind two steps in either order.
enter_comm :
    (o p : Option Bool) (n m : ℕ) (v w : ℕ × ℕ) (s : Sequence) (rest : Sequence → Option Sequence)
    → same v w ≡ false
    → Respects rest rest
    → Alike
        (elim (enter o n v s) [
          | none ↦ none
          | some t ↦ elim (enter p m w t) [ none ↦ none | some u ↦ rest u ]
        ])
        (elim (enter p m w s) [
          | none ↦ none
          | some t ↦ elim (enter o n v t) [ none ↦ none | some u ↦ rest u ]
        ])
unfolding enter
enter_comm none none n m v w s rest h k = tt
enter_comm none (some false) n m v w s rest h k = tt
enter_comm none (some true) n m v w s rest h k = tt
enter_comm (some false) none n m v w s rest h k = tt
enter_comm (some false) (some false) n m v w s rest h k = Alike-refl (rest s)
enter_comm (some false) (some true) n m v w s rest h k = Alike-refl (rest (emit m w s))
enter_comm (some true) none n m v w s rest h k = tt
enter_comm (some true) (some false) n m v w s rest h k = Alike-refl (rest (emit n v s))
enter_comm (some true) (some true) n m v w s rest h k = k _ _ (emit_comm n m v w s h)

visit_all-swap :
    (l : Layout) (x y : ℕ) (v w : ℕ × ℕ) (vs : List (ℕ × ℕ)) (s : Sequence)
    → Alike (visit_all l x y (v ∷ w ∷ vs) s) (visit_all l x y (w ∷ v ∷ vs) s)
unfolding visit_all
visit_all-swap l x y v w vs s = elim (Bool-cases (same v w)) [
  | inl e ↦
      subst (λ u. Alike (visit_all l x y (v ∷ w ∷ vs) s) (visit_all l x y (u ∷ v ∷ vs) s))
        (same→≡ v w e)
        (subst (λ u. Alike (visit_all l x y (v ∷ u ∷ vs) s) (visit_all l x y (v ∷ v ∷ vs) s))
          (same→≡ v w e) (Alike-refl (visit_all l x y (v ∷ v ∷ vs) s)))
  | inr e ↦
      enter_comm (starts l x y v) (starts l x y w) (width l v) (width l w) v w s
        (visit_all l x y vs) e (visit_all-Respects l x y vs)
]

-- The order of the visits of one position matters to the order of the precincts alone.
visit_all-Permᴰ :
    (l : Layout) (x y : ℕ) (vs ws : List (ℕ × ℕ)) (s : Sequence)
    → Permᴰ vs ws
    → Alike (visit_all l x y vs s) (visit_all l x y ws s)
unfolding visit_all
visit_all-Permᴰ l x y _ _ s Permᴰ.nil = Same-refl s
visit_all-Permᴰ l x y _ _ s (Permᴰ.cons {a = a} {b = b} {l₁ = vs} {l₂ = ws} e d) =
    subst (λ u. Alike (visit_all l x y (a ∷ vs) s) (visit_all l x y (u ∷ ws) s)) e
      (then-Alike (visit l x y a s) (visit l x y a s) _ _ (Alike-refl (visit l x y a s)) (λ t u h.
        Alike-trans (visit_all l x y vs t) (visit_all l x y vs u) (visit_all l x y ws u)
          (visit_all-Respects l x y vs t u h) (visit_all-Permᴰ l x y vs ws u d)))
visit_all-Permᴰ l x y _ _ s (Permᴰ.swap {a = a} {b = b} {b' = b'} {l = vs} e f) =
    subst (λ u. Alike (visit_all l x y (a ∷ b ∷ vs) s) (visit_all l x y (u ∷ b' ∷ vs) s)) f
      (subst (λ u. Alike (visit_all l x y (a ∷ b ∷ vs) s) (visit_all l x y (b ∷ u ∷ vs) s)) e
        (visit_all-swap l x y a b vs s))
visit_all-Permᴰ l x y _ _ s (Permᴰ.trans {l₁ = us} {l₂ = vs} {l₃ = ws} d e) =
    Alike-trans (visit_all l x y us s) (visit_all l x y vs s) (visit_all l x y ws s)
      (visit_all-Permᴰ l x y us vs s d) (visit_all-Permᴰ l x y vs ws s e)

pub position-Respects :
    (l : Layout) (x y : ℕ) (vs ws : List (ℕ × ℕ))
    → Permᴰ vs ws
    → Respects (visit_all l x y vs) (visit_all l x y ws)
position-Respects l x y vs ws d s t h =
    Alike-trans (visit_all l x y vs s) (visit_all l x y vs t) (visit_all l x y ws t)
      (visit_all-Respects l x y vs s t h) (visit_all-Permᴰ l x y vs ws t d)

pub sweep-Respects :
    (fuel x x1 step : ℕ) (f g : ℕ → Sequence → Option Sequence)
    → ((x : ℕ) → Respects (f x) (g x))
    → Respects (sweep fuel x x1 step f) (sweep fuel x x1 step g)
unfolding sweep
sweep-Respects zero x x1 step f g h s t k = tt
sweep-Respects (suc fuel) x x1 step f g h s t k = elim (Bool-cases (ltb x x1)) [
  | inr e ↦ rw e k
  | inl e ↦ rw e (
      then-Alike (f x s) (g x t) _ _ (h x s t k)
        (sweep-Respects fuel ((x + step) % 2 ^ 32) x1 step f g h))
]
