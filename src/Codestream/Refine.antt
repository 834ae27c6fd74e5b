-- ===== src/Codestream/Refine.antt =====
-- The chain reader refines the cursor over one byte sequence: how the bytes are cut into chunks
-- never shows, and no read leaves a chunk.
use rtp_decoder_test.Base.{
  ℕ, zero, suc, ◌+◌, ◌-◌, ◌-◌, ◌*◌, ◌/◌, ◌%◌, ◌^◌, ◌<◌, ◌≡◌, refl, ap, ◌∙◌, Bool-cases, inl, inr,
  Option, none, some, List, arith, ◌==◌, ==_iff, if◌then◌else◌, length, get_elem?, get_elem?-some,
  get_elem?-lt, drop, flatten,
}
use mathlib.Core.Path.{subst, subst₃}
use native.Mathlib.Numerals.{add-one}
use rtp_decoder_test.Codestream.{
  Codestream, M, pure, ◌>>=◌, walk, advance, past_byte, get_byte, get_word, get_dword, load_byte,
  refill, pop_bit, get_bit, get_bits_from, packetheader_flush_bits,
}
use rtp_decoder_test.Codestream.Flat
use rtp_decoder_test.Codestream.Flat.{Flat, F}
use rtp_decoder_test.Codestream.Place.{
  Inside, at, IsValid, Walks, walk-Walks, get_elem?-flatten, before-suc, NonEmpty-Inside,
}

abbrev pub view : Codestream → Flat
view s = record {
  bytes = flatten s.chunks;
  pos = s.consumed_before_cur_chunk + s.cur_offset;
  tmp = s.tmp;
  last = s.last;
  bits = s.bits;
}

-- The result of a call agrees with that of the contract; a fault agrees with nothing. The chain
-- itself stays.
abbrev pub Agrees : {A : Type 0} → List (List ℕ) → Option (A × Codestream) → A × Flat → Type 0
Agrees cs none q = ⊥
Agrees cs (some (a, s)) (b, v) = (a ≡ b) × (view s ≡ v) × IsValid s × (s.chunks ≡ cs)

pub record Refines {A : Type 0} (m : M A) (f : F A) : Type 0 where
  pub agrees : (s : Codestream) → IsValid s → Agrees s.chunks (m s) (f (view s))

pub advance-view :
    (n : ℕ) (s : Codestream)
    → IsValid s
    → (view (advance n s) ≡ Flat.advance n (view s)) × IsValid (advance n s)
unfolding advance Flat.advance
advance-view n s v = (
  ap (λ p. record (view s) { pos = p }) reached.kept,
  record { nonempty = v.nonempty; placed = reached.place },
)
  where
    open s use {chunks, cur_chunk, cur_offset, consumed_before_cur_chunk}

    reached :
        Walks chunks
          (consumed_before_cur_chunk + cur_offset + n)
          (walk (drop cur_chunk chunks) cur_chunk (cur_offset + n) consumed_before_cur_chunk)
    reached =
        walk-Walks chunks (drop cur_chunk chunks) cur_chunk (cur_offset + n)
          consumed_before_cur_chunk _ refl v.placed.in_chain v.placed.counted (omega arith)

past_byte-view :
    (c : List ℕ) (s : Codestream)
    → IsValid s
    → get_elem? s.chunks s.cur_chunk ≡ some c
    → (view (past_byte c s) ≡ record (view s) { pos = (view s).pos + 1 })
      × IsValid (past_byte c s)
      × ((past_byte c s).chunks ≡ s.chunks)
past_byte-view c s v e = elim (Bool-cases (s.cur_offset + 1 == length c)) [
  | inl ends ↦ rw ends (
    ap (λ p. record (view s) { pos = p }) (omega (arith, (==_iff _ _).0 ends)),
    record {
      nonempty = v.nonempty;
      placed = record {
        in_chain = (omega (arith, get_elem?-lt s.chunks s.cur_chunk c e));
        inside = NonEmpty-Inside s.chunks (s.cur_chunk + 1) v.nonempty;
        counted = rw add-one (omega (arith, before-suc s.chunks s.cur_chunk c e, v.placed.counted));
      };
    },
    refl,
  )
  | inr within ↦ rw within (
    ap (λ p. record (view s) { pos = p }) (omega arith),
    record {
      nonempty = v.nonempty;
      placed = record {
        in_chain = v.placed.in_chain;
        inside = rw e (ground (arith, offset_in_chunk));
        counted = v.placed.counted;
      };
    },
    refl,
  )
]
  where
    offset_in_chunk : s.cur_offset < length c
    offset_in_chunk = subst (λ t. Inside t s.cur_offset) e v.placed.inside

get_byte-end : (s : Codestream) → get_elem? s.chunks s.cur_chunk ≡ none → get_byte s ≡ some (0, s)
unfolding get_byte
get_byte-end s e = ground arith

get_byte-inside :
    (s : Codestream) (c : List ℕ) (b : ℕ)
    → get_elem? s.chunks s.cur_chunk ≡ some c
    → get_elem? c s.cur_offset ≡ some b
    → get_byte s ≡ some (b, past_byte c s)
unfolding get_byte
get_byte-inside s c b e h = rw (e, get_byte) (rw (h, get_byte))

pub flat_get_byte-end : (v : Flat) → get_elem? v.bytes v.pos ≡ none → Flat.get_byte v ≡ (0, v)
unfolding Flat.get_byte
flat_get_byte-end v e = rw (e, Flat.get_byte)

pub flat_get_byte-inside :
    (v : Flat) (b : ℕ)
    → get_elem? v.bytes v.pos ≡ some b
    → Flat.get_byte v ≡ (b, record v { pos = v.pos + 1 })
unfolding Flat.get_byte
flat_get_byte-inside v b e = rw (e, Flat.get_byte)

-- The byte at the cursor, in the chain and in the whole sequence.
located :
    (s : Codestream)
    → IsValid s
    → get_elem? (view s).bytes (view s).pos ≡ at (get_elem? s.chunks s.cur_chunk) s.cur_offset
located s v =
    get_elem?-flatten s.chunks s.cur_chunk s.cur_offset _ v.placed.inside
      (ap (λ t. t + s.cur_offset) v.placed.counted)

byte_at :
    (s : Codestream) (o : Option (List ℕ))
    → IsValid s
    → get_elem? s.chunks s.cur_chunk ≡ o
    → Agrees s.chunks (get_byte s) (Flat.get_byte (view s))
byte_at s none v e =
    rw (get_byte-end s e, flat_get_byte-end (view s) (located s v ∙ ap (λ o. at o s.cur_offset) e))
      (refl, refl, v, refl)
byte_at s (some c) v e =
    let (b, h) =
      get_elem?-some c s.cur_offset (subst (λ o. Inside o s.cur_offset) e v.placed.inside) in
    let (p, w, q) = past_byte-view c s v e in
    rw
      (
        get_byte-inside s c b e h,
        flat_get_byte-inside (view s) b (located s v ∙ ap (λ o. at o s.cur_offset) e ∙ h),
      )
      (refl, p, w, q)

pub chunks-advance : (n : ℕ) (s : Codestream) → (advance n s).chunks ≡ s.chunks
unfolding advance
chunks-advance n s = refl

pub get_byte-Refines : Refines get_byte Flat.get_byte
get_byte-Refines = record { agrees = λ s v. byte_at s (get_elem? s.chunks s.cur_chunk) v refl }

module _ {A B : Type 0} where
  bind-Agrees :
      (k : A → M B) (g : A → F B) (cs : List (List ℕ)) (r : Option (A × Codestream)) (q : A × Flat)
      → ((a : A) → Refines (k a) (g a))
      → Agrees cs r q
      → Agrees cs (elim r [ none ↦ none | some (a, t) ↦ k a t ]) (g q.0 q.1)
  bind-Agrees k g cs none q h d = absurd d
  bind-Agrees k g cs (some (a, t)) (b, w) h d =
      subst₃ (λ x y z. Agrees x (k a t) (g y z)) d.3 d.0 d.1 ((h a).agrees t d.2)

  pub bind-Refines :
      {m : M A} {f : F A} {k : A → M B} {g : A → F B}
      → Refines m f
      → ((a : A) → Refines (k a) (g a))
      → Refines (m >>= k) (Flat.◌>>=◌ f g)
  bind-Refines {m} {f} {k} {g} hm hk = record {
    agrees = λ s v. bind-Agrees k g s.chunks (m s) (f (view s)) hk (hm.agrees s v);
  }

pub pure-Refines : {A : Type 0} (a : A) → Refines (pure a) (Flat.pure a)
pure-Refines a = record { agrees = λ s v. (refl, refl, v, refl) }

pub get_word-Refines : Refines get_word Flat.get_word
unfolding get_word Flat.get_word
get_word-Refines =
    bind-Refines get_byte-Refines
      λ hi. bind-Refines get_byte-Refines λ lo. pure-Refines (hi * 256 + lo)

pub get_dword-Refines : Refines get_dword Flat.get_dword
unfolding get_dword Flat.get_dword
get_dword-Refines =
    bind-Refines get_word-Refines
      λ hi. bind-Refines get_word-Refines λ lo. pure-Refines (hi * 65536 + lo)

-- A step that changes the bit register alone.
register-IsValid :
    (s : Codestream) (t l b : ℕ) → IsValid s → IsValid (record s { tmp = t; last = l; bits = b })
register-IsValid s t l b v = record { nonempty = v.nonempty; placed = v.placed }

load-Refines :
    (b : ℕ)
    → Refines
        (λ t. some (tt, load_byte b t))
        (λ w. (tt, record w { bits = if w.tmp == 0xff then 7 else 8; last = w.tmp; tmp = b }))
load-Refines b = record { agrees = λ s v. (refl, refl, register-IsValid s _ _ _ v, refl) }

refill-Refines : Refines refill Flat.refill
unfolding refill Flat.refill
refill-Refines = record {
  agrees = λ s v. elim (Bool-cases (s.bits == 0)) [
    | inl dry ↦ rw dry ((bind-Refines get_byte-Refines load-Refines).agrees s v)
    | inr wet ↦ rw wet (refl, refl, v, refl)
  ];
}

pop_bit-Refines :
    Refines pop_bit (λ v. (v.tmp / 2 ^ (v.bits - 1) % 2, record v { bits = v.bits - 1 }))
pop_bit-Refines = record { agrees = λ s v. (refl, refl, register-IsValid s _ _ _ v, refl) }

pub get_bit-Refines : Refines get_bit Flat.get_bit
unfolding get_bit Flat.get_bit
get_bit-Refines = bind-Refines refill-Refines (λ _. pop_bit-Refines)

pub get_bits_from-Refines : (n res : ℕ) → Refines (get_bits_from n res) (Flat.get_bits_from n res)
unfolding get_bits_from Flat.get_bits_from
get_bits_from-Refines zero res = pure-Refines res
get_bits_from-Refines (suc n) res =
    bind-Refines get_bit-Refines λ b. get_bits_from-Refines n (res * 2 % 2 ^ 32 + b)

abbrev clear_register : Flat → Flat
clear_register w = record w { tmp = 0; bits = 0 }

pub flush_bits-Refines : Refines packetheader_flush_bits Flat.flush_bits
unfolding packetheader_flush_bits Flat.flush_bits
flush_bits-Refines = record {
  agrees = λ s v. elim (Bool-cases (s.tmp == 0xff)) [
    | inl stuffed ↦ rw stuffed (
      refl,
      ap (λ (w : Flat). clear_register w) (advance-view 1 s v).0,
      register-IsValid _ _ _ _ (advance-view 1 s v).1,
      chunks-advance 1 s,
    )
    | inr plain ↦ rw plain (refl, refl, register-IsValid s _ _ _ v, refl)
  ];
}
