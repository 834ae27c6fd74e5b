-- ===== src/Codestream/Reads.antt =====
-- What all code that only reads from a codestream has in common: it keeps the chain, it does not move
-- back, and what it returns does not depend on how the bytes are cut into chunks.
use rtp_decoder_test.Base.{
  ℕ, zero, suc, ◌+◌, ◌*◌, ◌%◌, ◌^◌, ◌≤◌, ◌≡◌, refl, sym, ap, ◌∙◌, Bool, true, false, Bool-cases,
  inl, inr, Option, none, some, arith, if◌then◌else◌, get_elem?, ◌==◌, Option-cases,
}
use mathlib.Core.Path.{subst}
use rtp_decoder_test.Codestream.{
  Codestream, M, pure, ◌>>=◌, get_byte, get_word, get_dword, get_bit, get_bits_from,
  packetheader_get_bits, packetheader_flush_bits, get_pos,
}
use rtp_decoder_test.Codestream.Flat
use rtp_decoder_test.Codestream.Flat.{Flat, F}
use rtp_decoder_test.Codestream.Place.{IsValid}
use rtp_decoder_test.Codestream.Refine.{
  view, Agrees, Refines, get_byte-Refines, get_bit-Refines, flush_bits-Refines,
}

-- The stream after a read: of the same chunks, valid, and not before where it was.
pub record Forward (s t : Codestream) : Type 0 where
  pub same_chunks : t.chunks ≡ s.chunks
  pub valid : IsValid t
  pub forward : (view s).pos ≤ (view t).pos

abbrev pub After : {A : Type 0} → Codestream → Option (A × Codestream) → Type 0
After s none = Unit {0}
After s (some (a, t)) = Forward s t

-- Two results that differ in the cut of the chunks at most.
abbrev pub Alike : {A : Type 0} → Option (A × Codestream) → Option (A × Codestream) → Type 0
Alike none none = Unit {0}
Alike none (some q) = ⊥
Alike (some p) none = ⊥
Alike (some (a, s)) (some (b, t)) = (a ≡ b) × (view s ≡ view t)

pub record Reads {A : Type 0} (m : M A) : Type 0 where
  pub after : (s : Codestream) → IsValid s → After s (m s)
  pub alike : (s t : Codestream) → IsValid s → IsValid t → view s ≡ view t → Alike (m s) (m t)

pub Forward-refl : (s : Codestream) → IsValid s → Forward s s
Forward-refl s v = record { same_chunks = refl; valid = v; forward = omega arith }

pub Forward-trans : (s t u : Codestream) → Forward s t → Forward t u → Forward s u
Forward-trans s t u f g = record {
  same_chunks = g.same_chunks ∙ f.same_chunks;
  valid = g.valid;
  forward = omega (arith, f.forward, g.forward);
}

-- A cursor that does not move back.
abbrev pub Monotone : {A : Type 0} → F A → Type 0
Monotone f = (v : Flat) → v.pos ≤ (f v).1.pos

module _ {A : Type 0} where
  refined-After :
      (s : Codestream) (r : Option (A × Codestream)) (q : A × Flat)
      → Agrees s.chunks r q
      → (view s).pos ≤ q.1.pos
      → After s r
  refined-After s none q d h = tt
  refined-After s (some (a, t)) (b, w) d h = record {
    same_chunks = d.3;
    valid = d.2;
    forward = subst (λ (v : Flat). (view s).pos ≤ v.pos) (sym d.1) h;
  }

  refined-Alike :
      (cs ds : _) (r p : Option (A × Codestream)) (q : A × Flat)
      → Agrees cs r q
      → Agrees ds p q
      → Alike r p
  refined-Alike cs ds none p q d e = absurd d
  refined-Alike cs ds (some x) none q d e = absurd e
  refined-Alike cs ds (some (a, s)) (some (b, t)) (c, w) d e = (d.0 ∙ sym e.0, d.1 ∙ sym e.1)

  -- What refines a cursor that does not move back.
  pub Refines-Reads : {m : M A} (f : F A) → Refines m f → Monotone f → Reads m
  Refines-Reads {m} f h mono = record {
    after = λ s v. refined-After s (m s) (f (view s)) (h.agrees s v) (mono (view s));
    alike = λ s t v w e.
        refined-Alike s.chunks t.chunks (m s) (m t) (f (view s)) (h.agrees s v)
          (subst (λ x. Agrees t.chunks (m t) (f x)) (sym e) (h.agrees t w));
  }

  pub pure-Reads : (a : A) → Reads (pure a)
  pure-Reads a = record { after = λ s v. Forward-refl s v; alike = λ s t v w e. (refl, e) }

  pub none-Reads : Reads {A = A} (λ s. none)
  none-Reads = record { after = λ s v. tt; alike = λ s t v w e. tt }

  pub if-Reads : (b : Bool) {m n : M A} → Reads m → Reads n → Reads (if b then m else n)
  if-Reads true h k = h
  if-Reads false h k = k

module _ {A B : Type 0} where
  bind-After :
      (k : A → M B) (s : Codestream) (r : Option (A × Codestream))
      → ((a : A) → Reads (k a))
      → After s r
      → After s (elim r [ none ↦ none | some (a, t) ↦ k a t ])
  bind-After k s none h d = tt
  bind-After k s (some (a, t)) h d = extend (k a t) ((h a).after t d.valid)
    where
      extend : (o : Option (B × Codestream)) → After t o → After s o
      extend none e = tt
      extend (some (b, u)) e = Forward-trans s t u d e

  bind-Alike :
      (k : A → M B) (s s' : Codestream) (r r' : Option (A × Codestream))
      → ((a : A) → Reads (k a))
      → After s r
      → After s' r'
      → Alike r r'
      → Alike
          (elim r [ none ↦ none | some (a, t) ↦ k a t ])
          (elim r' [ none ↦ none | some (a, t) ↦ k a t ])
  bind-Alike k s s' none none h d d' e = tt
  bind-Alike k s s' none (some q) h d d' e = absurd e
  bind-Alike k s s' (some p) none h d d' e = absurd e
  bind-Alike k s s' (some (a, t)) (some (a', t')) h d d' e =
      subst (λ x. Alike (k a t) (k x t')) e.0 ((h a).alike t t' d.valid d'.valid e.1)

  pub bind-Reads : {m : M A} {k : A → M B} → Reads m → ((a : A) → Reads (k a)) → Reads (m >>= k)
  bind-Reads {m} {k} hm hk = record {
    after = λ s v. bind-After k s (m s) hk (hm.after s v);
    alike = λ s t v w e.
        bind-Alike k s t (m s) (m t) hk (hm.after s v) (hm.after t w) (hm.alike s t v w e);
  }

-- What holds of the value and the stream that a read returns, if it does not fault.
abbrev pub Holds : {A : Type 0} → (A → Codestream → Type 0) → Option (A × Codestream) → Type 0
Holds P none = Unit {0}
Holds P (some (a, t)) = P a t

pub bind-Holds :
    {A B : Type 0} (P : B → Codestream → Type 0) (k : A → M B) (r : Option (A × Codestream))
    → ((a : A) (t : Codestream) → r ≡ some (a, t) → Holds P (k a t))
    → Holds P (elim r [ none ↦ none | some (a, t) ↦ k a t ])
bind-Holds P k none h = tt
bind-Holds P k (some (a, t)) h = h a t refl

pub if-Holds :
    {A : Type 0} (P : A → Codestream → Type 0) (b : Bool) (m n : M A) (s : Codestream)
    → (b ≡ true → Holds P (m s))
    → (b ≡ false → Holds P (n s))
    → Holds P ((if b then m else n) s)
if-Holds P true m n s h k = h refl
if-Holds P false m n s h k = k refl

-- What a read returns, from an equation of its result.
pub returned :
    {A : Type 0} (m : M A) (s t : Codestream) (a : A)
    → Reads m
    → IsValid s
    → m s ≡ some (a, t)
    → Forward s t
returned m s t a h v e = subst (λ r. After s r) e (h.after s v)

pub get_byte-Monotone : Monotone Flat.get_byte
unfolding Flat.get_byte
get_byte-Monotone v = elim (Option-cases (get_elem? v.bytes v.pos)) [
  | inl e ↦ rw (e, Flat.get_byte) (omega arith)
  | inr (b, e) ↦ rw (e, Flat.get_byte) (omega arith)
]

get_bit-Monotone : Monotone Flat.get_bit
unfolding Flat.get_bit Flat.refill
get_bit-Monotone v = elim (Bool-cases (v.bits == 0)) [
  | inl e ↦ rw e (get_byte-Monotone v)
  | inr e ↦ rw e (omega arith)
]

flush_bits-Monotone : Monotone Flat.flush_bits
unfolding Flat.flush_bits Flat.advance
flush_bits-Monotone v = elim (Bool-cases (v.tmp == 0xff)) [
  | inl e ↦ rw e (omega arith)
  | inr e ↦ rw e (omega arith)
]

pub get_byte-Reads : Reads get_byte
get_byte-Reads = Refines-Reads Flat.get_byte get_byte-Refines get_byte-Monotone

pub get_word-Reads : Reads get_word
unfolding get_word
get_word-Reads =
    bind-Reads get_byte-Reads λ hi. bind-Reads get_byte-Reads λ lo. pure-Reads (hi * 256 + lo)

pub get_dword-Reads : Reads get_dword
unfolding get_dword
get_dword-Reads =
    bind-Reads get_word-Reads λ hi. bind-Reads get_word-Reads λ lo. pure-Reads (hi * 65536 + lo)

pub get_bit-Reads : Reads get_bit
get_bit-Reads = Refines-Reads Flat.get_bit get_bit-Refines get_bit-Monotone

pub get_bits_from-Reads : (n res : ℕ) → Reads (get_bits_from n res)
unfolding get_bits_from
get_bits_from-Reads zero res = pure-Reads res
get_bits_from-Reads (suc n) res =
    bind-Reads get_bit-Reads λ b. get_bits_from-Reads n (res * 2 % 2 ^ 32 + b)

pub get_bits-Reads : (n : ℕ) → Reads (packetheader_get_bits n)
unfolding packetheader_get_bits
get_bits-Reads n = get_bits_from-Reads n 0

pub flush_bits-Reads : Reads packetheader_flush_bits
flush_bits-Reads = Refines-Reads Flat.flush_bits flush_bits-Refines flush_bits-Monotone

pub get_pos-Reads : {A : Type 0} (f : ℕ → A) → Reads (λ s. some (f (get_pos s), s))
unfolding get_pos
get_pos-Reads f = record {
  after = λ s v. Forward-refl s v;
  alike = λ s t v w e. (ap (λ (x : Flat). f (x.pos % 2 ^ 32)) e, e);
}
