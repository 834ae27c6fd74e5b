-- ===== src/Codestream/Growth.antt =====
-- A chain that grows while it is read, and a cursor that is set anew.
use rtp_decoder_test.Base.{
  ℕ, zero, suc, ◌+◌, ◌%◌, ◌^◌, ◌≤◌, ◌<◌, ◌≡◌, refl, sym, ap, ◌∙◌, none, some, List, [], ◌∷◌, ◌++◌,
  append-nil, append_assoc, arith, length, get_elem?, get_elem?-append_right, get_elem?-none, take,
  flatten, length-append,
}
use rtp_decoder_test.Codestream.{Codestream, seek, walk, append_chunk, reset, get_pos, get_byte}
use rtp_decoder_test.Codestream.Flat
use rtp_decoder_test.Codestream.Flat.{Flat}
use rtp_decoder_test.Codestream.Place.{
  IsValid, NonEmpty, Inside, before, before-all, Walks, walk-Walks, IsPlaced-unique,
}
use rtp_decoder_test.Codestream.Refine.{view}

flatten-snoc : (cs : List (List ℕ)) (c : List ℕ) → flatten (cs ++ (c ∷ [])) ≡ flatten cs ++ c
flatten-snoc [] c = append-nil c
flatten-snoc (d ∷ cs) c = ap (◌++◌ d) (flatten-snoc cs c) ∙ sym (append_assoc d (flatten cs) c)

NonEmpty-snoc :
    (cs : List (List ℕ)) (c : List ℕ) → NonEmpty cs → 0 < length c → NonEmpty (cs ++ (c ∷ []))
NonEmpty-snoc [] c h k = (k, tt)
NonEmpty-snoc (d ∷ cs) c h k = (h.0, NonEmpty-snoc cs c h.1 k)

before-snoc :
    (cs : List (List ℕ)) (c : List ℕ) (k : ℕ)
    → k ≤ length cs
    → before (cs ++ (c ∷ [])) k ≡ before cs k
before-snoc cs c zero h = refl
before-snoc [] c (suc k) h = absurd (omega arith)
before-snoc (d ∷ cs) c (suc k) h = omega (
  arith,
  length-append d (flatten (take k (cs ++ (c ∷ [])))),
  length-append d (flatten (take k cs)),
  before-snoc cs c k (omega arith),
)

Inside-snoc :
    (cs : List (List ℕ)) (c : List ℕ) (k o : ℕ)
    → k ≤ length cs
    → Inside (get_elem? cs k) o
    → (k ≡ length cs → o < length c)
    → Inside (get_elem? (cs ++ (c ∷ [])) k) o
Inside-snoc [] c zero o h i f = f refl
Inside-snoc [] c (suc k) o h i f = absurd (omega arith)
Inside-snoc (d ∷ cs) c zero o h i f = i
Inside-snoc (d ∷ cs) c (suc k) o h i f = Inside-snoc cs c k o (omega arith) i (λ e. f (ap suc e))

-- A chunk that arrives while the cursor has not passed the end of the chain continues the sequence.
pub append_chunk-view :
    (c : List ℕ) (s : Codestream)
    → IsValid s
    → 0 < length c
    → (view s).pos ≤ length (view s).bytes
    → (view (append_chunk c s) ≡ Flat.append c (view s)) × IsValid (append_chunk c s)
unfolding append_chunk Flat.append
append_chunk-view c s v h p = (
  ap (λ t. record (view s) { bytes = t }) (flatten-snoc s.chunks c),
  record {
    nonempty = NonEmpty-snoc s.chunks c v.nonempty h;
    placed = record {
      in_chain = omega (arith, length-append s.chunks (c ∷ []), v.placed.in_chain);
      inside =
          Inside-snoc s.chunks c s.cur_chunk s.cur_offset v.placed.in_chain v.placed.inside
            (λ e. first e);
      counted = v.placed.counted ∙ sym (before-snoc s.chunks c s.cur_chunk v.placed.in_chain);
    };
  },
)
  where
    first : s.cur_chunk ≡ length s.chunks → s.cur_offset < length c
    first e = omega (arith, before-all s.chunks s.cur_chunk (omega (arith, e)), v.placed.counted)

-- `reset` puts the cursor at an absolute position, whatever it was.
pub reset-view :
    (p : ℕ) (s : Codestream)
    → NonEmpty s.chunks
    → (view (reset p s) ≡ Flat.reset p (view s)) × IsValid (reset p s)
unfolding reset Flat.reset
reset-view p s h = (
  ap (λ q. record (view s) { pos = q; tmp = 0; last = 0; bits = 0 }) reached.kept,
  record { nonempty = h; placed = reached.place },
)
  where
    reached : Walks s.chunks p (walk s.chunks 0 p 0)
    reached = walk-Walks s.chunks s.chunks 0 p 0 p refl (omega arith) refl (omega arith)

-- A saved position brings the cursor back, with the bit register cleared.
pub reset-get_pos :
    (s : Codestream)
    → IsValid s
    → s.cur_chunk < length s.chunks
    → (view s).pos < 2 ^ 32
    → reset (get_pos s) s ≡ record s { tmp = 0; last = 0; bits = 0 }
unfolding reset get_pos
reset-get_pos s v h p = ap (seek (record s { tmp = 0; last = 0; bits = 0 })) (ground (arith, back))
  where
    q : ℕ
    q = (s.consumed_before_cur_chunk + s.cur_offset) % 2 ^ 32

    reached : Walks s.chunks q (walk s.chunks 0 q 0)
    reached = walk-Walks s.chunks s.chunks 0 q 0 q refl (omega arith) refl (omega arith)

    back :
        (s.cur_chunk ≡ (walk s.chunks 0 q 0).0)
        × (s.cur_offset ≡ (walk s.chunks 0 q 0).1)
        × (s.consumed_before_cur_chunk ≡ (walk s.chunks 0 q 0).2)
    back = IsPlaced-unique s.chunks v.placed reached.place h (omega (arith, reached.kept))

-- A cursor that was moved beyond the end of the chain reads outside of a chunk that arrives later
-- and is not longer than the distance.
pub get_byte-append_past_end :
    (c : List ℕ) (s : Codestream)
    → s.cur_chunk ≡ length s.chunks
    → length c ≤ s.cur_offset
    → get_byte (append_chunk c s) ≡ none
unfolding get_byte append_chunk
get_byte-append_past_end c s e h = rw (chunk, get_byte) (rw (get_elem?-none c s.cur_offset h))
  where
    chunk : get_elem? (s.chunks ++ (c ∷ [])) s.cur_chunk ≡ some c
    chunk = get_elem?-append_right s.chunks (c ∷ []) 0 s.cur_chunk (omega (arith, e))
