-- ===== src/Codestream/Place.antt =====
-- Where the cursor of a codestream stands: the representation invariant, and what the loop of
-- `advance` and `reset` keeps.
use rtp_decoder_test.Base.{
  ℕ, zero, suc, ◌+◌, ◌-◌, ◌≤◌, ◌<◌, ◌≡◌, refl, sym, ap, ◌∙◌, Bool-cases, inl, inr, Option, none,
  some, List, [], ◌∷◌, ◌++◌, arith, leb, leb→le, leb→lt, length, get_elem?, take, drop, flatten,
  length-append, get_elem?-append_left, get_elem?-append_right, get_elem?-none, length-drop,
  get_elem?-drop, drop-suc,
}
use native.Mathlib.Numerals.{add-one}
use rtp_decoder_test.Codestream.{Codestream, walk}

abbrev pub NonEmpty : List (List ℕ) → Type 0
NonEmpty [] = Unit {0}
NonEmpty (c ∷ cs) = (0 < length c) × NonEmpty cs

-- The offset lies inside of the current chunk, if there is one.
abbrev pub Inside : Option (List ℕ) → ℕ → Type 0
Inside none o = Unit {0}
Inside (some c) o = o < length c

-- The bytes in the chunks before number `k`.
abbrev pub before : List (List ℕ) → ℕ → ℕ
before cs k = length (flatten (take k cs))

pub record IsPlaced (cs : List (List ℕ)) (k o b : ℕ) : Type 0 where
  pub in_chain : k ≤ length cs
  pub inside : Inside (get_elem? cs k) o
  pub counted : b ≡ before cs k

pub record IsValid (s : Codestream) : Type 0 where
  pub nonempty : NonEmpty s.chunks
  pub placed : IsPlaced s.chunks s.cur_chunk s.cur_offset s.consumed_before_cur_chunk

abbrev pub at : Option (List ℕ) → ℕ → Option ℕ
at none o = none
at (some c) o = get_elem? c o

-- A byte of the chain is found by its absolute position.
pub get_elem?-flatten :
    (cs : List (List ℕ)) (k o p : ℕ)
    → Inside (get_elem? cs k) o
    → p ≡ before cs k + o
    → get_elem? (flatten cs) p ≡ at (get_elem? cs k) o
get_elem?-flatten [] k o p h e = refl
get_elem?-flatten (c ∷ cs) zero o p h e =
    ap (get_elem? (c ++ flatten cs)) (omega (arith, e)) ∙ get_elem?-append_left c (flatten cs) o h
get_elem?-flatten (c ∷ cs) (suc k) o p h e =
    get_elem?-append_right c (flatten cs) (before cs k + o) p
      (omega (arith, length-append c (flatten (take k cs))))
    ∙ get_elem?-flatten cs k o (before cs k + o) h refl

pub before-suc :
    (cs : List (List ℕ)) (k : ℕ) (c : List ℕ)
    → get_elem? cs k ≡ some c
    → before cs (suc k) ≡ before cs k + length c
before-suc [] k c e = cc
before-suc (d ∷ cs) zero c e = ground (arith, append-nil-length d, length-append d [])
  where
    append-nil-length : (d : List ℕ) → length (d ++ []) ≡ length d
    append-nil-length d = omega (arith, length-append d [])
before-suc (d ∷ cs) (suc k) c e = omega (
  arith,
  length-append d (flatten (take (suc k) cs)),
  length-append d (flatten (take k cs)),
  before-suc cs k c e,
)

pub before-all : (cs : List (List ℕ)) (k : ℕ) → length cs ≤ k → before cs k ≡ length (flatten cs)
before-all [] zero h = refl
before-all [] (suc k) h = refl
before-all (c ∷ cs) zero h = absurd (omega arith)
before-all (c ∷ cs) (suc k) h = omega (
  arith,
  length-append c (flatten (take k cs)),
  length-append c (flatten cs),
  before-all cs k (omega arith),
)

-- What `walk` reaches.
pub record Walks (cs : List (List ℕ)) (p : ℕ) (r : ℕ × ℕ × ℕ) : Type 0 where
  pub place : IsPlaced cs r.0 r.1 r.2
  pub kept : r.2 + r.1 ≡ p

drop-nil_length : {A : Type 0} (k : ℕ) (xs : List A) → drop k xs ≡ [] → length xs ≤ k
drop-nil_length k xs e = omega (arith, length-drop k xs, ap length e)

drop-cons_length :
    {A : Type 0} (k : ℕ) (xs : List A) (x : A) (r : List A) → drop k xs ≡ x ∷ r → k < length xs
drop-cons_length k xs x r e = omega (arith, length-drop k xs, ap length e)

-- `walk` leaves the absolute position alone, and ends inside of a chunk or behind the chain.
pub walk-Walks :
    (cs rest : List (List ℕ)) (k o b p : ℕ)
    → drop k cs ≡ rest
    → k ≤ length cs
    → b ≡ before cs k
    → b + o ≡ p
    → Walks cs p (walk rest k o b)
unfolding walk
walk-Walks cs [] k o b p e h c q = record {
  place = record {
    in_chain = h;
    inside = rw (get_elem?-none cs k (drop-nil_length k cs e)) tt;
    counted = c;
  };
  kept = q;
}
walk-Walks cs (d ∷ rest) k o b p e h c q = elim (Bool-cases (leb (length d) o)) [
  | inl past ↦ rw past (
      walk-Walks cs rest (k + 1) (o - length d) (b + length d) p
        (rw add-one (drop-suc k cs d rest e)) (omega (arith, drop-cons_length k cs d rest e))
        (rw add-one (omega (arith, before-suc cs k d (get_elem?-drop k cs d rest e))))
        (omega (arith, leb→le (length d) o past)))
  | inr here ↦ rw here (record {
    place = record {
      in_chain = h;
      inside = rw (get_elem?-drop k cs d rest e) (leb→lt (length d) o here);
      counted = c;
    };
    kept = q;
  })
]

-- Two places inside of chunks at the same absolute position are one.
place_unique :
    (cs : List (List ℕ)) (k o k' o' : ℕ)
    → k < length cs
    → k' ≤ length cs
    → Inside (get_elem? cs k) o
    → Inside (get_elem? cs k') o'
    → before cs k + o ≡ before cs k' + o'
    → (k ≡ k') × (o ≡ o')
place_unique [] k o k' o' h h' i i' e = absurd (omega arith)
place_unique (c ∷ cs) zero o zero o' h h' i i' e = omega arith
place_unique (c ∷ cs) zero o (suc k') o' h h' i i' e =
    absurd (omega (arith, length-append c (flatten (take k' cs))))
place_unique (c ∷ cs) (suc k) o zero o' h h' i i' e =
    absurd (omega (arith, length-append c (flatten (take k cs))))
place_unique (c ∷ cs) (suc k) o (suc k') o' h h' i i' e =
    let tails : (k ≡ k') × (o ≡ o') = place_unique cs k o k' o' (omega arith) (omega arith) i i' (
      omega
        (arith, length-append c (flatten (take k cs)), length-append c (flatten (take k' cs)))) in
    (ap suc tails.0, tails.1)

pub IsPlaced-unique :
    (cs : List (List ℕ)) {k o b k' o' b' : ℕ}
    → IsPlaced cs k o b
    → IsPlaced cs k' o' b'
    → k < length cs
    → b + o ≡ b' + o'
    → (k ≡ k') × (o ≡ o') × (b ≡ b')
IsPlaced-unique cs {k} {o} {b} {k'} {o'} {b'} v w h e =
    let same : (k ≡ k') × (o ≡ o') =
      place_unique cs k o k' o' h w.in_chain v.inside w.inside
        (ap (λ t. t + o) (sym v.counted) ∙ e ∙ ap (λ t. t + o') w.counted) in
    (same.0, same.1, omega arith)

-- A chain has as many bytes as its chunks, and fewer lie before a chunk than in the chain.
pub before-lt :
    (cs : List (List ℕ)) (k : ℕ) (c : List ℕ)
    → get_elem? cs k ≡ some c
    → before cs k + length c ≤ length (flatten cs)
before-lt [] k c e = cc
before-lt (d ∷ cs) zero c e = omega (arith, length-append d (flatten cs), ap length (some_eq e))
  where
    some_eq : some d ≡ some c → d ≡ c
    some_eq q = cc
before-lt (d ∷ cs) (suc k) c e =
    omega (
      arith,
      length-append d (flatten (take k cs)),
      length-append d (flatten cs),
      before-lt cs k c e,
    )

pub NonEmpty-Inside : (cs : List (List ℕ)) (k : ℕ) → NonEmpty cs → Inside (get_elem? cs k) 0
NonEmpty-Inside [] k h = tt
NonEmpty-Inside (c ∷ cs) zero h = h.0
NonEmpty-Inside (c ∷ cs) (suc k) h = NonEmpty-Inside cs k h.1
