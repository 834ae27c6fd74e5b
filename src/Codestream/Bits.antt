-- ===== src/Codestream/Bits.antt =====
-- The bits of a packet header: the reader undoes the bit stuffing (7 bits only behind a 0xFF byte).
use rtp_decoder_test.Base.{
  ℕ, zero, suc, ◌+◌, ◌-◌, ◌*◌, ◌/◌, ◌%◌, ◌^◌, ◌≤◌, ◌<◌, ◌≡◌, refl, sym, ap, ap₂, ◌∙◌, Bool-cases,
  inl, inr, true, false, Option, none, some, List, [], ◌∷◌, ◌++◌, arith, ◌==◌, if◌then◌else◌,
  length, get_elem?, get_elem?-drop, drop, drop-suc,
}
use mathlib.Core.Path.{subst}
use native.Mathlib.Numerals.{add-one}
use native.Mathlib.Nat.{pow-suc, one-le-pow, pow-le-pow_right}
use rtp_decoder_test.Codestream.{Codestream, packetheader_get_bits}
use rtp_decoder_test.Codestream.Flat
use rtp_decoder_test.Codestream.Flat.{Flat}
use rtp_decoder_test.Codestream.Place.{IsValid}
use rtp_decoder_test.Codestream.Refine.{view, Agrees, get_bits_from-Refines}

-- The low `n` bits of a byte, the highest first.
abbrev pub low_bits : ℕ → ℕ → List ℕ
low_bits t zero = []
low_bits t (suc n) = t / 2 ^ n % 2 ∷ low_bits t n

-- The payload bits of stuffed bytes that follow the byte `p`.
abbrev pub unstuff : ℕ → List ℕ → List ℕ
unstuff p [] = []
unstuff p (b ∷ bs) = low_bits b (if p == 0xff then 7 else 8) ++ unstuff b bs

-- The bits that are still to be read.
abbrev pub header_bits : Flat → List ℕ
header_bits v = low_bits v.tmp v.bits ++ unstuff v.tmp (drop v.pos v.bytes)

abbrev pub value : ℕ → List ℕ → ℕ
value acc [] = acc
value acc (b ∷ bs) = value (acc * 2 + b) bs

-- What a read of one bit leaves.
abbrev Reads : ℕ → List ℕ → ℕ × Flat → Type 0
Reads b r q = (q.0 ≡ b) × (header_bits q.1 ≡ r)

abbrev popped : Flat → ℕ × Flat
popped v = (v.tmp / 2 ^ (v.bits - 1) % 2, record v { bits = v.bits - 1 })

pop_lem :
    (v : Flat) (n b : ℕ) (r : List ℕ)
    → v.bits ≡ suc n
    → header_bits v ≡ b ∷ r
    → Reads b r (popped v)
pop_lem v n b r e h = (
  ap (λ k. v.tmp / 2 ^ k % 2) last_bit ∙ (cc shown),
  ap (λ k. low_bits v.tmp k ++ unstuff v.tmp (drop v.pos v.bytes)) last_bit ∙ (cc shown),
)
  where
    last_bit : v.bits - 1 ≡ n
    last_bit = omega arith

    shown : low_bits v.tmp (suc n) ++ unstuff v.tmp (drop v.pos v.bytes) ≡ b ∷ r
    shown = ap (λ k. low_bits v.tmp k ++ unstuff v.tmp (drop v.pos v.bytes)) (sym e) ∙ h

get_bit_wet : (v : Flat) → (v.bits == 0) ≡ false → Flat.get_bit v ≡ popped v
unfolding Flat.get_bit Flat.refill
get_bit_wet v e = rw e

abbrev loaded : ℕ → Flat → Flat
loaded b v = record v {
  pos = v.pos + 1;
  bits = if v.tmp == 0xff then 7 else 8;
  last = v.tmp;
  tmp = b;
}

get_bit_dry :
    (v : Flat) (b : ℕ)
    → (v.bits == 0) ≡ true
    → get_elem? v.bytes v.pos ≡ some b
    → Flat.get_bit v ≡ popped (loaded b v)
unfolding Flat.get_bit Flat.refill Flat.get_byte
get_bit_dry v b e h = rw e (rw (h, Flat.get_byte))

-- One read takes the first of the bits that are left.
pub get_bit_lem :
    (v : Flat) (b : ℕ) (r : List ℕ) → header_bits v ≡ b ∷ r → Reads b r (Flat.get_bit v)
get_bit_lem v b r h = by_bits v.bits refl
  where
    fill : (p : ℕ) → (n : ℕ) × ((if p == 0xff then 7 else 8) ≡ suc n)
    fill p = elim (Bool-cases (p == 0xff)) [ inl e ↦ (6, rw e) | inr e ↦ (7, rw e) ]

    left : (ds : List ℕ) → drop v.pos v.bytes ≡ ds → v.bits ≡ 0 → unstuff v.tmp ds ≡ b ∷ r
    left ds e z = sym (ap₂ (λ k es. low_bits v.tmp k ++ unstuff v.tmp es) z e) ∙ h

    by_bytes : (ds : List ℕ) → drop v.pos v.bytes ≡ ds → v.bits ≡ 0 → Reads b r (Flat.get_bit v)
    by_bytes [] e z = let f : [] ≡ b ∷ r = left [] e z in absurd (cc f)
    by_bytes (d ∷ ds) e z =
        rw (get_bit_dry v d (ground (arith, z)) (get_elem?-drop v.pos v.bytes d ds e)) (
          pop_lem (loaded d v) (fill v.tmp).0 b r (fill v.tmp).1 (
            ap (λ es. low_bits d (if v.tmp == 0xff then 7 else 8) ++ unstuff d es)
              (rw add-one (drop-suc v.pos v.bytes d ds e))
            ∙ left (d ∷ ds) e z))

    by_bits : (n : ℕ) → v.bits ≡ n → Reads b r (Flat.get_bit v)
    by_bits zero e = by_bytes (drop v.pos v.bytes) refl e
    by_bits (suc n) e = rw (get_bit_wet v (ground (arith, e))) (pop_lem v n b r e h)

abbrev All {ℓ} : {A : Type 0} → (A → Type ℓ) → List A → Type ℓ
All P [] = Unit
All P (x ∷ xs) = P x × All P xs

room : (res n b : ℕ) → (res + 1) * 2 ^ suc n ≤ 2 ^ 32 → b < 2 → (res * 2 + b + 1) * 2 ^ n ≤ 2 ^ 32
room res n b w h = scale (2 ^ n) (rw (pow-suc 2 n) at w)
  where
    scale : (t : ℕ) → (res + 1) * (t * 2) ≤ 2 ^ 32 → (res * 2 + b + 1) * t ≤ 2 ^ 32
    scale t k = grind arith

small : (res n : ℕ) → (res + 1) * 2 ^ suc n ≤ 2 ^ 32 → res * 2 < 2 ^ 32
small res n w = scale (2 ^ n) (one-le-pow n 2 (omega arith)) (rw (pow-suc 2 n) at w)
  where
    scale : (t : ℕ) → 1 ≤ t → (res + 1) * (t * 2) ≤ 2 ^ 32 → res * 2 < 2 ^ 32
    scale t h k = grind arith

-- `n` reads give the number that the next `n` bits spell, if it fits into 32 bits.
get_bits_from_lem :
    (bs r : List ℕ) (n res : ℕ) (v : Flat)
    → header_bits v ≡ bs ++ r
    → length bs ≡ n
    → All (λ b. b < 2) bs
    → (res + 1) * 2 ^ n ≤ 2 ^ 32
    → Reads (value res bs) r (Flat.get_bits_from n res v)
unfolding Flat.get_bits_from
get_bits_from_lem [] r zero res v h l a w = (refl, h)
get_bits_from_lem [] r (suc n) res v h l a w = absurd (omega arith)
get_bits_from_lem (b ∷ bs) r zero res v h l a w = absurd (omega arith)
get_bits_from_lem (b ∷ bs) r (suc n) res v h l a w =
    subst (λ t. Reads (value (res * 2 + b) bs) r (Flat.get_bits_from n t (Flat.get_bit v).1))
      (sym acc)
      (get_bits_from_lem bs r n (res * 2 + b) (Flat.get_bit v).1 first.1 (omega arith) a.1
        (room res n b w a.0))
  where
    first : Reads b (bs ++ r) (Flat.get_bit v)
    first = get_bit_lem v b (bs ++ r) h

    acc : res * 2 % 2 ^ 32 + (Flat.get_bit v).0 ≡ res * 2 + b
    acc = omega (arith, first.0, small res n w)

-- The call returns `a` and a valid stream with the same chunks whose header bits are `r`.
abbrev pub Yields : Codestream → ℕ → List ℕ → Option (ℕ × Codestream) → Type 0
Yields s a r none = ⊥
Yields s a r (some (b, t)) =
    (b ≡ a) × (header_bits (view t) ≡ r) × IsValid t × (t.chunks ≡ s.chunks)

yields :
    (s : Codestream) (a : ℕ) (r : List ℕ) (m : Option (ℕ × Codestream)) (q : ℕ × Flat)
    → Agrees s.chunks m q
    → Reads a r q
    → Yields s a r m
yields s a r none q d e = d
yields s a r (some (b, t)) q d e = (d.0 ∙ e.0, ap header_bits d.1 ∙ e.1, d.2, d.3)

-- On a valid stream whose next header bits, with the stuffing taken out, are `bs`, a read of at
-- most 32 bits does not fault, returns the number that `bs` spells with its first bit the highest,
-- and leaves the bits behind `bs`. The chunk boundaries do not matter.
pub packetheader_get_bits_lem :
    (s : Codestream) (n : ℕ) (bs r : List ℕ)
    → IsValid s
    → header_bits (view s) ≡ bs ++ r
    → length bs ≡ n
    → n ≤ 32
    → All (λ b. b < 2) bs
    → Yields s (value 0 bs) r (packetheader_get_bits n s)
unfolding packetheader_get_bits
packetheader_get_bits_lem s n bs r v h l w a =
    yields s (value 0 bs) r _ _ ((get_bits_from-Refines n 0).agrees s v) (
      get_bits_from_lem bs r n 0 (view s) h l a
        (omega (arith, pow-le-pow_right {n = 2} (omega arith) w)))
