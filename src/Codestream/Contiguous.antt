-- ===== src/Codestream/Contiguous.antt =====
-- `take_contiguous`, by either path, gives the bytes at the cursor.
use rtp_decoder_test.Base.{
  ℕ, zero, suc, ◌+◌, ◌-◌, ◌≤◌, ◌<◌, ◌≡◌, ◌⊎◌, refl, sym, ap, ap₂, ◌∙◌, Bool-cases, Option-cases,
  inl, inr, false, true, Option, none, some, List, [], ◌∷◌, ◌++◌, append_assoc, append-nil, arith,
  leb, ltb, ltb→lt, leb→le, leb→lt, ◌==◌, ==_iff, length, min, get_elem?, get_elem?-none-length,
  get_elem?-lt, take-nil, drop-get_elem?, drop-all, take, drop, flatten, replicate, length-append,
  length-take, length-drop, take-append_left, take-add, drop-add, drop-append_left,
  drop-append_right,
}
use mathlib.Core.Path.{subst}
use rtp_decoder_test.Codestream.{Codestream, walk, advance, copy_loop, stage, take_contiguous}
use rtp_decoder_test.Codestream.Flat
use rtp_decoder_test.Codestream.Flat.{Flat}
use rtp_decoder_test.Codestream.Place.{IsValid, Inside, before, before-all, before-lt}
use rtp_decoder_test.Codestream.Refine.{view, Agrees, Refines, advance-view, chunks-advance}

-- The bytes from the cursor on.
abbrev pub rest : Codestream → List ℕ
rest s = drop (view s).pos (view s).bytes

drop-flatten :
    (cs : List (List ℕ)) (k o p : ℕ) (c : List ℕ)
    → get_elem? cs k ≡ some c
    → o ≤ length c
    → p ≡ before cs k + o
    → drop p (flatten cs) ≡ drop o c ++ flatten (drop (suc k) cs)
drop-flatten [] k o p c e h q = cc
drop-flatten (d ∷ cs) zero o p c e h q =
    let same : d ≡ c = cc in
    rw same (ap (λ t. drop t (c ++ flatten cs)) (omega arith) ∙ drop-append_left o c (flatten cs) h)
drop-flatten (d ∷ cs) (suc k) o p c e h q =
    drop-append_right (before cs k + o) p d (flatten cs)
      (omega (arith, length-append d (flatten (take k cs))))
    ∙ drop-flatten cs k o (before cs k + o) c e h refl

module _ (s : Codestream) (v : IsValid s) where
  rest-end : get_elem? s.chunks s.cur_chunk ≡ none → rest s ≡ []
  rest-end e =
      let gone : length s.chunks ≤ s.cur_chunk = get_elem?-none-length s.chunks s.cur_chunk e in
      drop-all (view s).pos (view s).bytes
        (omega (arith, before-all s.chunks s.cur_chunk gone, v.placed.counted))

  offset_in_chunk : (c : List ℕ) → get_elem? s.chunks s.cur_chunk ≡ some c → s.cur_offset < length c
  offset_in_chunk c e = subst (λ t. Inside t s.cur_offset) e v.placed.inside

  rest-inside :
      (c : List ℕ)
      → get_elem? s.chunks s.cur_chunk ≡ some c
      → rest s ≡ drop s.cur_offset c ++ flatten (drop (suc s.cur_chunk) s.chunks)
  rest-inside c e =
      drop-flatten s.chunks s.cur_chunk s.cur_offset _ c e (omega (arith, offset_in_chunk c e))
        (ap (λ t. t + s.cur_offset) v.placed.counted)

  rest-advance : (n : ℕ) → rest (advance n s) ≡ drop n (rest s)
  unfolding Flat.advance
  rest-advance n =
      ap (λ (w : Flat). drop w.pos w.bytes) (advance-view n s v).0
      ∙ drop-add (view s).pos n (view s).bytes

-- A chunk read to its end is left.
walk-le : (cs : List (List ℕ)) (k o b : ℕ) → k ≤ (walk cs k o b).0
unfolding walk
walk-le [] k o b = omega arith
walk-le (c ∷ cs) k o b = ground (arith, walk-le cs (k + 1) (o - length c) (b + length c))

walk_leaves :
    (c : List ℕ) (cs : List (List ℕ)) (k o b : ℕ) → length c ≤ o → suc k ≤ (walk (c ∷ cs) k o b).0
unfolding walk
walk_leaves c cs k o b h = ground (arith, walk-le cs (k + 1) (o - length c) (b + length c))

advance_leaves :
    (s : Codestream) (c : List ℕ) (n : ℕ)
    → get_elem? s.chunks s.cur_chunk ≡ some c
    → length c ≤ s.cur_offset + n
    → suc s.cur_chunk ≤ (advance n s).cur_chunk
unfolding advance
advance_leaves s c n e h = rw (drop-get_elem? s.cur_chunk s.chunks c e) (
    walk_leaves c (drop (suc s.cur_chunk) s.chunks) s.cur_chunk (s.cur_offset + n)
      s.consumed_before_cur_chunk h)

lt→ltb_false : {a b : ℕ} → a < b → ltb b a ≡ false
lt→ltb_false h = ground arith

-- What a copy of `len` bytes leaves, begun with `out` copied: the bytes at the cursor are appended
-- as far as there are any, and the cursor moves over them.
record Copied (len : ℕ) (out : List ℕ) (s : Codestream) (r : List ℕ × Codestream) : Type 0 where
  copied : r.0 ≡ out ++ take (len - length out) (rest s)
  moved : view r.1 ≡ Flat.advance (length (take (len - length out) (rest s))) (view s)
  valid : IsValid r.1
  kept : r.1.chunks ≡ s.chunks

Copied-done :
    (len : ℕ) (out : List ℕ) (s : Codestream)
    → IsValid s
    → take (len - length out) (rest s) ≡ []
    → Copied len out s (out, s)
unfolding Flat.advance
Copied-done len out s v e = record {
  copied = rw (e, append-nil out);
  moved = rw e (ap (λ p. record (view s) { pos = p }) (omega arith));
  valid = v;
  kept = refl;
}

abbrev round : ℕ → List ℕ → List ℕ → Codestream → ℕ
round len out c s = min (len - length out) (length c - s.cur_offset)

module _ (len : ℕ) (out c : List ℕ) (s : Codestream) (v : IsValid s)
    (e : get_elem? s.chunks s.cur_chunk ≡ some c) where
  round-take : take (round len out c s) (drop s.cur_offset c) ≡ take (round len out c s) (rest s)
  round-take = rw (rest-inside s v c e) (
      sym (
        take-append_left (round len out c s) (drop s.cur_offset c) _
          (omega (arith, length-drop s.cur_offset c))))

  abbrev taken : List ℕ
  taken = take (round len out c s) (drop s.cur_offset c)

  length-taken : length taken ≡ round len out c s
  length-taken =
      omega
        (arith, length-take (round len out c s) (drop s.cur_offset c), length-drop s.cur_offset c)

  abbrev left : List ℕ
  left = take (len - length out - round len out c s) (drop (round len out c s) (rest s))

  left_lem : take (len - length (out ++ taken)) (rest (advance (round len out c s) s)) ≡ left
  left_lem =
      ap₂ take (omega (arith, length-append out taken, length-taken))
        (rest-advance s v (round len out c s))

  taken-left : taken ++ left ≡ take (len - length out) (rest s)
  taken-left =
      ap (λ t. t ++ left) round-take
      ∙ take-add (round len out c s) (len - length out) (rest s) (omega arith)

  -- A round and what follows it make up the whole copy.
  Copied-round :
      (r : List ℕ × Codestream)
      → Copied len (out ++ taken) (advance (round len out c s) s) r
      → Copied len out s r
  unfolding Flat.advance
  Copied-round r k = record {
    copied =
        k.copied
        ∙ ap (λ t. (out ++ taken) ++ t) left_lem
        ∙ append_assoc out taken left
        ∙ ap (◌++◌ out) taken-left;
    moved =
        k.moved
        ∙ ap₂ (λ t w. Flat.advance (length t) w) left_lem (advance-view (round len out c s) s v).0
        ∙ ap (λ p. record (view s) { pos = p })
            (omega (arith, length-taken, length-append taken left, ap length taken-left));
    valid = k.valid;
    kept = k.kept ∙ chunks-advance (round len out c s) s;
  }

-- Enough fuel for what is left of the chain, or nothing left to copy.
abbrev Fuelled : ℕ → ℕ → List ℕ → Codestream → Type 0
Fuelled fuel len out s =
    (length s.chunks + 2 ≤ fuel + s.cur_chunk) ⊎ ((length out ≡ len) × (0 < fuel))

module _ (len : ℕ) (out c : List ℕ) (s : Codestream) (v : IsValid s)
    (e : get_elem? s.chunks s.cur_chunk ≡ some c) where
  round-Fuelled :
      (fuel : ℕ)
      → length out < len
      → length s.chunks + 2 ≤ suc fuel + s.cur_chunk
      → Fuelled fuel len (out ++ taken len out c s v e) (advance (round len out c s) s)
  round-Fuelled fuel h f = elim (Bool-cases (leb (length c) (s.cur_offset + round len out c s))) [
    | inl ends ↦ inl (
        omega (
          arith,
          ap length (chunks-advance (round len out c s) s),
          advance_leaves s c (round len out c s) e (leb→le _ _ ends),
        ))
    | inr within ↦ inr (
      omega (
        arith,
        length-append out (taken len out c s v e),
        length-taken len out c s v e,
        leb→lt (length c) (s.cur_offset + round len out c s) within,
      ),
      omega (arith, get_elem?-lt s.chunks s.cur_chunk c e),
    )
  ]

take-zero : (n : ℕ) (xs : List ℕ) → n ≡ 0 → take n xs ≡ []
take-zero zero xs e = refl
take-zero (suc n) xs e = absurd (omega arith)

copy_loop_lem :
    (fuel len : ℕ) (out : List ℕ) (s : Codestream) (o : Option (List ℕ))
    → IsValid s
    → get_elem? s.chunks s.cur_chunk ≡ o
    → length out ≤ len
    → Fuelled fuel len out s
    → (r : List ℕ × Codestream) × (copy_loop fuel len out s ≡ some r) × Copied len out s r
unfolding copy_loop
copy_loop_lem zero len out s o v e h f = absurd (omega arith)
copy_loop_lem (suc fuel) len out s none v e h f = (
  (out, s),
  rw (e, copy_loop),
  Copied-done len out s v
      (ap (take (len - length out)) (rest-end s v e) ∙ take-nil (len - length out)),
)
copy_loop_lem (suc fuel) len out s (some c) v e h f = elim (Bool-cases (ltb (length out) len)) [
  | inl more ↦
      let h' : length out < len = ltb→lt (length out) len more in
      let n : ℕ = round len out c s in
      let (r, q, k) =
        copy_loop_lem fuel len (out ++ taken len out c s v e) (advance n s) _ (advance-view n s v).1
          refl
          (omega (arith, length-append out (taken len out c s v e), length-taken len out c s v e))
          (round-Fuelled len out c s v e fuel h' (omega arith)) in
      (
        r,
        rw (e, copy_loop) (rw (more, lt→ltb_false (offset_in_chunk s v c e)) q),
        Copied-round len out c s v e r k,
      )
  | inr done ↦ (
    (out, s),
    rw (e, copy_loop) (rw done),
    Copied-done len out s v (take-zero _ (rest s) (ground (arith, done))),
  )
]

module _ (len : ℕ) (s : Codestream) where
  contiguous_null : get_elem? s.chunks s.cur_chunk ≡ none → take_contiguous len s ≡ some (none, s)
  unfolding take_contiguous
  contiguous_null e = rw (e, take_contiguous)

  module _ (c : List ℕ) (e : get_elem? s.chunks s.cur_chunk ≡ some c) where
    contiguous_zero : (len == 0) ≡ true → take_contiguous len s ≡ some (some [], s)
    unfolding take_contiguous
    contiguous_zero z = rw (e, take_contiguous) (rw z)

    contiguous_fast :
        (len == 0) ≡ false
        → leb (s.cur_offset + len) (length c) ≡ true
        → take_contiguous len s ≡ some (some (take len (drop s.cur_offset c)), advance len s)
    unfolding take_contiguous
    contiguous_fast z f = rw (e, take_contiguous) (rw (z, f))

    contiguous_slow :
        (r : List ℕ × Codestream)
        → (len == 0) ≡ false
        → leb (s.cur_offset + len) (length c) ≡ false
        → copy_loop (length s.chunks + 2) len [] s ≡ some r
        → take_contiguous len s ≡ some (stage len r)
    unfolding take_contiguous
    contiguous_slow r z f q = rw (e, take_contiguous) (rw (z, f) (rw q))

-- The contract's result where bytes are left.
abbrev served_flat : ℕ → Flat → Option (List ℕ) × Flat
served_flat len v =
    let body = take len (drop v.pos v.bytes) in
    (some (body ++ replicate (len - length body) 0), record v { pos = v.pos + length body })

flat_served :
    (len : ℕ) (v : Flat) → v.pos < length v.bytes → Flat.take_contiguous len v ≡ served_flat len v
unfolding Flat.take_contiguous
flat_served len v h = ground arith

flat_null : (len : ℕ) (v : Flat) → length v.bytes ≤ v.pos → Flat.take_contiguous len v ≡ (none, v)
unfolding Flat.take_contiguous
flat_null len v h = ground arith

past_end :
    (s : Codestream)
    → IsValid s
    → get_elem? s.chunks s.cur_chunk ≡ none
    → length (view s).bytes ≤ (view s).pos
past_end s v e =
    let gone : length s.chunks ≤ s.cur_chunk = get_elem?-none-length s.chunks s.cur_chunk e in
    omega (arith, before-all s.chunks s.cur_chunk gone, v.placed.counted)

before_end :
    (s : Codestream)
    → IsValid s
    → (c : List ℕ) → get_elem? s.chunks s.cur_chunk ≡ some c
    → (view s).pos < length (view s).bytes
before_end s v c e =
    omega (arith, before-lt s.chunks s.cur_chunk c e, offset_in_chunk s v c e, v.placed.counted)

replicate-zero : (n : ℕ) → n ≡ 0 → replicate {A = ℕ} n 0 ≡ []
replicate-zero zero e = refl
replicate-zero (suc n) e = absurd (omega arith)

module _ (len : ℕ) (s : Codestream) (v : IsValid s) where
  -- A body that has all of its bytes is not padded.
  whole :
      (body : List ℕ) (t : Codestream)
      → take len (rest s) ≡ body
      → length body ≡ len
      → view t ≡ Flat.advance len (view s)
      → IsValid t
      → t.chunks ≡ s.chunks
      → Agrees s.chunks (some (some body, t)) (served_flat len (view s))
  unfolding Flat.advance
  whole body t b l w u k =
      rw (b, l, replicate-zero (len - len) (omega arith), append-nil body) (refl, w, u, k)

  module _ (c : List ℕ) (e : get_elem? s.chunks s.cur_chunk ≡ some c) where
    staged :
        (len == 0) ≡ false
        → leb (s.cur_offset + len) (length c) ≡ false
        → Agrees s.chunks (take_contiguous len s) (served_flat len (view s))
    unfolding Flat.advance
    staged z f =
        let (r, q, k) =
          copy_loop_lem (length s.chunks + 2) len [] s (some c) v e (omega arith)
            (inl (omega arith)) in
        let n : len - 0 ≡ len = omega arith in
        let b : r.0 ≡ take len (rest s) = k.copied ∙ ap (λ t. take t (rest s)) n in
        rw (contiguous_slow len s c e r z f q) (
          ap (λ (t : List ℕ). some (t ++ replicate (len - length t) 0)) b,
          k.moved ∙ ap (λ t. Flat.advance (length (take t (rest s))) (view s)) n,
          record { nonempty = k.valid.nonempty; placed = k.valid.placed },
          k.kept,
        )

    served : Agrees s.chunks (take_contiguous len s) (served_flat len (view s))
    unfolding Flat.advance
    served = elim (Bool-cases (len == 0)) [
      | inl z ↦ rw (contiguous_zero len s c e z) (
          whole [] s (take-zero len (rest s) ((==_iff len 0).0 z)) (sym ((==_iff len 0).0 z))
            (ap (λ p. record (view s) { pos = p }) (omega (arith, (==_iff len 0).0 z))) v refl)
      | inr z ↦ elim (Bool-cases (leb (s.cur_offset + len) (length c))) [
        | inl f ↦
            let fits : len ≤ length (drop s.cur_offset c) =
              omega (arith, length-drop s.cur_offset c, leb→le (s.cur_offset + len) (length c) f) in
            rw (contiguous_fast len s c e z f) (
              whole (take len (drop s.cur_offset c)) (advance len s)
                (ap (take len) (rest-inside s v c e)
                  ∙ take-append_left len (drop s.cur_offset c) _ fits)
                (omega (arith, length-take len (drop s.cur_offset c))) (advance-view len s v).0
                (advance-view len s v).1 (chunks-advance len s))
        | inr f ↦ staged z f
      ]
    ]

-- `take_contiguous` does not fault, and returns the bytes at the cursor on every path.
pub take_contiguous-Refines : (len : ℕ) → Refines (take_contiguous len) (Flat.take_contiguous len)
take_contiguous-Refines len = record {
  agrees = λ s v. elim (Option-cases (get_elem? s.chunks s.cur_chunk)) [
    | inl e ↦
        rw (contiguous_null len s e, flat_null len (view s) (past_end s v e)) (refl, refl, v, refl)
    | inr (c, e) ↦ rw (flat_served len (view s) (before_end s v c e)) (served len s v c e)
  ];
}
