-- ===== src/Header/Orient.antt =====
-- packet_parser/j2k_header.cpp, parse_DFS: the orientations of the levels.
use rtp_decoder_test.Base.{
  ℕ, zero, suc, ◌/◌, ◌%◌, ◌≤◌, ◌<◌, ◌≡◌, ◌⊎◌, refl, ap, ◌∙◌, inl, inr, some, List, arith, length,
  get_elem?, write?, Written, write?-Written,
}
use rtp_decoder_test.Header.Dfs.{DfsMarker, ho, vo, orientations}

-- The levels from 1 to `n` have the orientations of some type, and the others what they had.
pub record Oriented (n : ℕ) (old new : DfsMarker) : Type 0 where
  pub same_idfs : new.idfs ≡ old.idfs
  pub same_hor : new.hor_depth ≡ old.hor_depth
  pub same_ver : new.ver_depth ≡ old.ver_depth
  pub entry :
      (l : ℕ)
      → 1 ≤ l
      → l ≤ n
      → (t : ℕ) × (get_elem? new.h_orient l ≡ some (ho t))
        × (get_elem? new.v_orient l ≡ some (vo t))
  pub above :
      (l : ℕ)
      → n < l
      → (get_elem? new.h_orient l ≡ get_elem? old.h_orient l)
        × (get_elem? new.v_orient l ≡ get_elem? old.v_orient l)

module _ (n bits : ℕ) (dfs : DfsMarker) (ts hs vs : List ℕ) where
  abbrev stored : DfsMarker
  stored = record dfs { type = ts; h_orient = hs; v_orient = vs }

  orientations-suc :
      (new : DfsMarker)
      → write? dfs.type (suc n) (bits % 4) ≡ some ts
      → write? dfs.h_orient (suc n) (ho (bits % 4)) ≡ some hs
      → write? dfs.v_orient (suc n) (vo (bits % 4)) ≡ some vs
      → orientations n (bits / 4) stored ≡ some new
      → orientations (suc n) bits dfs ≡ some new
  unfolding orientations
  orientations-suc new e f g k = rw (e, orientations) (rw f (rw g k))

  Oriented-suc :
      (new : DfsMarker)
      → Written dfs.h_orient (suc n) (ho (bits % 4)) hs
      → Written dfs.v_orient (suc n) (vo (bits % 4)) vs
      → Oriented n stored new
      → Oriented (suc n) dfs new
  Oriented-suc new u v o = record {
    same_idfs = o.same_idfs;
    same_hor = o.same_hor;
    same_ver = o.same_ver;
    entry = λ l p q. entry l p (omega arith);
    above = λ l p. (
      (o.above l (omega arith)).0 ∙ u.elsewhere l (λ e. omega arith),
      (o.above l (omega arith)).1 ∙ v.elsewhere l (λ e. omega arith),
    );
  }
    where
      entry :
          (l : ℕ)
          → 1 ≤ l
          → (l ≤ n) ⊎ (l ≡ suc n)
          → (t : ℕ) × (get_elem? new.h_orient l ≡ some (ho t))
            × (get_elem? new.v_orient l ≡ some (vo t))
      entry l p (inl below) = o.entry l p below
      entry l p (inr e) = (
        bits % 4,
        (o.above l (omega arith)).0 ∙ ap (get_elem? hs) e ∙ u.there,
        (o.above l (omega arith)).1 ∙ ap (get_elem? vs) e ∙ v.there,
      )

pub orientations-Oriented :
    (n bits : ℕ) (dfs : DfsMarker)
    → n < length dfs.type
    → n < length dfs.h_orient
    → n < length dfs.v_orient
    → (new : DfsMarker) × (orientations n bits dfs ≡ some new) × Oriented n dfs new
unfolding orientations
orientations-Oriented zero bits dfs a b c = (
  dfs,
  refl,
  record {
    same_idfs = refl;
    same_hor = refl;
    same_ver = refl;
    entry = λ l p q. absurd (omega arith);
    above = λ l p. (refl, refl);
  },
)
orientations-Oriented (suc n) bits dfs a b c =
    let (ts, e, w) = write?-Written dfs.type (suc n) (bits % 4) a in
    let (hs, f, u) = write?-Written dfs.h_orient (suc n) (ho (bits % 4)) b in
    let (vs, g, v) = write?-Written dfs.v_orient (suc n) (vo (bits % 4)) c in
    let (new, k, o) =
      orientations-Oriented n (bits / 4) (stored n bits dfs ts hs vs) (omega (arith, w.same_length))
        (omega (arith, u.same_length)) (omega (arith, v.same_length)) in
    (
      new,
      orientations-suc n bits dfs ts hs vs new e f g k,
      Oriented-suc n bits dfs ts hs vs new u v o,
    )
