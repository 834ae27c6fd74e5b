-- ===== src/Codestream/Total.antt =====
-- Code over a codestream that returns: no fault, and no loop that uses up its fuel.
use rtp_decoder_test.Base.{
  ℕ, zero, suc, ◌<◌, ◌≡◌, refl, sym, Bool, true, false, Option, none, some, arith, if◌then◌else◌,
}
use mathlib.Core.Path.{subst}
use rtp_decoder_test.Codestream.{
  Codestream, M, pure, ◌>>=◌, get_bit, get_bits_from, packetheader_get_bits,
}
use rtp_decoder_test.Codestream.Flat
use rtp_decoder_test.Codestream.Flat.{Flat, F}
use rtp_decoder_test.Codestream.Place.{IsValid}
use rtp_decoder_test.Codestream.Refine.{view, Agrees, Refines, get_bit-Refines}

abbrev pub Returns : {A : Type 0} → (A → Type 0) → Option (A × Codestream) → Type 0
Returns P none = ⊥
Returns P (some (a, t)) = P a × IsValid t

-- On every valid stream the code returns, a value of which `P` holds and a valid stream.
pub record Total {A : Type 0} (P : A → Type 0) (m : M A) : Type 0 where
  pub returns : (s : Codestream) → IsValid s → Returns P (m s)

abbrev pub Any : {A : Type 0} → A → Type 0
Any a = Unit {0}

module _ {A : Type 0} (P : A → Type 0) where
  pub pure-Total : (a : A) → P a → Total P (pure a)
  pure-Total a p = record { returns = λ s v. (p, v) }

  pub if-Total :
      (b : Bool) (m n : M A)
      → (b ≡ true → Total P m)
      → (b ≡ false → Total P n)
      → Total P (if b then m else n)
  if-Total true m n h k = h refl
  if-Total false m n h k = k refl

  refined-Returns :
      (f : F A) (s : Codestream) (r : Option (A × Codestream))
      → Agrees s.chunks r (f (view s))
      → P (f (view s)).0
      → Returns P r
  refined-Returns f s none d p = absurd d
  refined-Returns f s (some (a, t)) d p = (subst P (sym d.0) p, d.2)

  pub Refines-Total : {m : M A} (f : F A) → Refines m f → ((v : Flat) → P (f v).0) → Total P m
  Refines-Total {m} f h p = record {
    returns = λ s v. refined-Returns f s (m s) (h.agrees s v) (p (view s));
  }

pub Any-Total : {A : Type 0} (P : A → Type 0) {m : M A} → Total P m → Total Any m
Any-Total P {m} h = record { returns = λ s v. forget (m s) (h.returns s v) }
  where
    forget : (r : _) → Returns P r → Returns Any r
    forget none d = d
    forget (some (a, t)) d = (tt, d.1)

module _ {A B : Type 0} (P : A → Type 0) (Q : B → Type 0) where
  bind-Returns :
      (k : A → M B) (r : Option (A × Codestream))
      → Returns P r
      → ((a : A) → P a → Total Q (k a))
      → Returns Q (elim r [ none ↦ none | some (a, t) ↦ k a t ])
  bind-Returns k none d h = absurd d
  bind-Returns k (some (a, t)) d h = (h a d.0).returns t d.1

  pub bind-Total :
      {m : M A} {k : A → M B} → Total P m → ((a : A) → P a → Total Q (k a)) → Total Q (m >>= k)
  bind-Total {m} {k} hm hk = record { returns = λ s v. bind-Returns k (m s) (hm.returns s v) hk }

bit_bound : (v : Flat) → (Flat.get_bit v).0 < 2
unfolding Flat.get_bit
bit_bound v = omega arith

pub get_bit-Total : Total (λ b. b < 2) get_bit
get_bit-Total = Refines-Total (λ b. b < 2) Flat.get_bit get_bit-Refines bit_bound

pub get_bits_from-Total : (n res : ℕ) → Total Any (get_bits_from n res)
unfolding get_bits_from
get_bits_from-Total zero res = pure-Total Any res tt
get_bits_from-Total (suc n) res =
    bind-Total (λ b. b < 2) Any get_bit-Total λ b p. get_bits_from-Total n _

pub get_bits-Total : (n : ℕ) → Total Any (packetheader_get_bits n)
unfolding packetheader_get_bits
get_bits-Total n = get_bits_from-Total n 0
