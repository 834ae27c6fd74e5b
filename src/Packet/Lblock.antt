-- ===== src/Packet/Lblock.antt =====
-- packet_parser/j2k_packet.cpp, getlblockinc: the loop ends.
use rtp_decoder_test.Base.{
  ℕ, zero, suc, ◌+◌, ◌-◌, ◌*◌, ◌/◌, ◌%◌, ◌^◌, ◌<◌, ◌≡◌, refl, sym, ap, Bool-cases, Option-cases,
  inl, inr, Option, none, some, true, false, arith, ◌==◌, length, get_elem?, get_elem?-lt,
  if◌then◌else◌,
}
use mathlib.Core.Path.{subst}
use rtp_decoder_test.Codestream.{Codestream, get_bit, pure}
use rtp_decoder_test.Codestream.Flat
use rtp_decoder_test.Codestream.Flat.{Flat}
use rtp_decoder_test.Codestream.Place.{IsValid}
use rtp_decoder_test.Codestream.Refine.{
  view, Agrees, get_bit-Refines, flat_get_byte-end, flat_get_byte-inside,
}
use rtp_decoder_test.Codestream.Total.{Returns, Total, Any}
use rtp_decoder_test.Packet.Block.{count_ones, getlblockinc}

-- The bits that are left: those of the register, and those of the bytes behind the position.
abbrev left : Flat → ℕ
left v = 8 * (length v.bytes - v.pos) + v.bits

-- The register that a refill leaves, from its byte.
abbrev loaded : ℕ → Flat → Flat
loaded b w = record w { bits = if w.tmp == 0xff then 7 else 8; last = w.tmp; tmp = b }

abbrev popped : Flat → Flat
popped r = record r { bits = r.bits - 1 }

refill-wet : (v : Flat) → (v.bits == 0) ≡ false → Flat.refill v ≡ (tt, v)
unfolding Flat.refill
refill-wet v e = rw (e, Flat.refill) refl

refill-dry :
    (v w : Flat) (b : ℕ)
    → (v.bits == 0) ≡ true
    → Flat.get_byte v ≡ (b, w)
    → Flat.refill v ≡ (tt, loaded b w)
unfolding Flat.refill
refill-dry v w b e f = rw (e, Flat.refill) (ap (λ (q : ℕ × Flat). (tt, loaded q.0 q.1)) f)

zero_bit : (t : ℕ) → 0 < 0 / 2 ^ ((if t == 0xff then 7 else 8) - 1) % 2 → ⊥
zero_bit t = elim (Bool-cases (t == 0xff)) [
  | inl e ↦ rw e (λ p. omega arith)
  | inr e ↦ rw e (λ p. omega arith)
]

-- A bit that is 1 was left.
bit-left : (v : Flat) → 0 < (Flat.get_bit v).0 → left (Flat.get_bit v).1 < left v
unfolding Flat.get_bit
bit-left v h = elim (Bool-cases (v.bits == 0)) [
  | inr wet ↦ through v (refill-wet v wet) (λ p. ground (arith, wet))
  | inl dry ↦ elim (Option-cases (get_elem? v.bytes v.pos)) [
    | inl past ↦
        through (loaded 0 v) (refill-dry v v 0 dry (flat_get_byte-end v past))
          (λ p. absurd (zero_bit v.tmp p))
    | inr (b, here) ↦
        through (loaded b (record v { pos = v.pos + 1 }))
          (refill-dry v (record v { pos = v.pos + 1 }) b dry (flat_get_byte-inside v b here))
          (λ p. ground (arith, get_elem?-lt v.bytes v.pos b here))
  ]
]
  where
    through :
        (r : Flat)
        → Flat.refill v ≡ (tt, r)
        → (0 < r.tmp / 2 ^ (r.bits - 1) % 2 → left (popped r) < left v)
        → left (Flat.get_bit v).1 < left v
    through r e k =
        subst
          (λ (q : Unit {0} × Flat).
            0 < q.1.tmp / 2 ^ (q.1.bits - 1) % 2 → left (popped q.1) < left v)
          (sym e) k h

-- A bit of a valid stream is read, and the bits that are left are those of the contract.
bit_read :
    (s : Codestream)
    → IsValid s
    → (b : ℕ) × (t : Codestream) × (get_bit s ≡ some (b, t))
      × IsValid t
      × (0 < b → left (view t) < left (view s))
bit_read s v = go (get_bit s) refl (get_bit-Refines.agrees s v)
  where
    go :
        (o : Option (ℕ × Codestream))
        → get_bit s ≡ o
        → Agrees s.chunks o (Flat.get_bit (view s))
        → (b : ℕ) × (t : Codestream) × (get_bit s ≡ some (b, t))
          × IsValid t
          × (0 < b → left (view t) < left (view s))
    go none e d = absurd d
    go (some (b, t)) e d = (
      b,
      t,
      e,
      d.2,
      λ p.
          subst (λ w. left w < left (view s)) (sym d.1)
            (bit-left (view s) (subst (λ x. 0 < x) d.0 p)),
    )

count_ones-Returns :
    (fuel res : ℕ) (s : Codestream)
    → IsValid s
    → left (view s) < fuel
    → Returns Any (count_ones fuel res s)
unfolding count_ones
count_ones-Returns zero res s v l = absurd (omega arith)
count_ones-Returns (suc fuel) res s v l =
    let (b, t, e, w, less) = bit_read s v in
    subst
      (λ o. Returns {A = ℕ} Any (elim o [
        | none ↦ none
        | some (c, u) ↦ (if c == 0 then pure res else count_ones fuel (res + 1)) u
      ]))
      (sym e)
      (elim (Bool-cases (b == 0)) [
        | inl none_left ↦ rw none_left (tt, w)
        | inr one_more ↦
            rw one_more
              (count_ones-Returns fuel (res + 1) t w (ground (arith, less (ground arith))))
      ])

pub getlblockinc-Total : Total Any getlblockinc
unfolding getlblockinc
getlblockinc-Total = record { returns = λ s v. count_ones-Returns _ 0 s v (omega arith) }

-- The loop over the increments of Lblock ends on every valid stream, with a valid stream and within the
-- fuel: it reads no more 1 bits than there are bits left in the register and in the bytes behind the
-- position, since only 0 bits follow the end.
pub getlblockinc-Returns : (s : Codestream) → IsValid s → Returns Any (getlblockinc s)
getlblockinc-Returns s v = getlblockinc-Total.returns s v
