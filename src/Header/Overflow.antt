-- ===== src/Header/Overflow.antt =====
-- packet_parser/j2k_header.cpp: the precinct sizes of a coding style with too many levels.
use rtp_decoder_test.Base.{
  ◌%◌, ◌/◌, ◌⊎◌, length, List, write?-none, write?-Written, ℕ, zero, suc, ◌+◌, ◌≤◌, ◌<◌, ◌≡◌, ◌∙◌,
  refl, ap, Option, inl, inr, Option-cases, none, some, arith,
}
use rtp_decoder_test.Codestream.{Codestream, M, get_byte, ◌>>=◌}
use rtp_decoder_test.Header.{precinct_sizes}

bind-none {ℓ κ} :
    {A : Type ℓ} {B : Type κ} (m : M A) (f : A → M B) (s : Codestream)
    → m s ≡ none
    → (m >>= f) s ≡ none
bind-none {A = A} {B = B} m f s e =
    ap
      (λ (o : Option (A × Codestream)). elim o as (λ x. Option (B × Codestream)) [
        | none ↦ none
        | some (a, s') ↦ f a s'
      ])
      e

bind-some {ℓ κ} :
    {A : Type ℓ} {B : Type κ} (m : M A) (f : A → M B) (s s' : Codestream) (a : A)
    → m s ≡ some (a, s')
    → (m >>= f) s ≡ f a s'
bind-some {A = A} {B = B} m f s s' a e =
    ap
      (λ (o : Option (A × Codestream)). elim o as (λ x. Option (B × Codestream)) [
        | none ↦ none
        | some (b, t) ↦ f b t
      ])
      e

-- On every stream, the loop over more precinct sizes than there are entries left writes behind
-- the arrays, or reads a byte outside of the chain's buffers: it does not return. The number of levels
-- that the header gives is printed where it is above 5, but not refused.
pub precinct_sizes-overflow :
    (n i : ℕ) (pr : List (ℕ × ℕ)) (s : Codestream)
    → i ≤ length pr
    → length pr < i + n
    → precinct_sizes n i pr s ≡ none
unfolding precinct_sizes
precinct_sizes-overflow zero i pr s l w = absurd (omega arith)
precinct_sizes-overflow (suc n) i pr s l w = elim (Option-cases (get_byte s)) [
  | inl cut ↦ bind-none get_byte _ s cut
  | inr ((tmp, s'), read) ↦ bind-some get_byte _ s s' tmp read ∙ elim (room i) [
    | inr full ↦ rw (write?-none pr i (tmp % 16, tmp / 16 % 16) full) refl
    | inl room ↦
        let (ys, e, written) = write?-Written pr i (tmp % 16, tmp / 16 % 16) room in
        rw e (
          precinct_sizes-overflow n (i + 1) ys s' (omega (arith, written.same_length))
            (omega (arith, written.same_length)))
  ]
]
  where
    room : (i : ℕ) → (i < length pr) ⊎ (length pr ≤ i)
    room i = omega arith
