-- ===== src/Base/Lists.antt =====
-- Vectors and byte sequences as lists measured and indexed by native numbers.
use Prim.Native.Nat.{ℕ, zero, suc, ◌+◌, ◌-◌, ◌≤◌, ◌<◌, min}
use mathlib.Core.Path.{◌≡◌, refl, sym, ap, ◌∙◌}
use mathlib.Core.Logic.{◌≢◌}
use mathlib.Core.List.{List, [], ◌∷◌, ◌++◌}
use mathlib.Core.Option.{Option, none, some}
use native.Mathlib.Omega.{arith}

module _ {ℓ} {A : Type ℓ} where
  abbrev pub length : List A → ℕ
  length [] = 0
  length (x ∷ xs) = suc (length xs)

  abbrev pub get_elem? : List A → ℕ → Option A
  get_elem? [] i = none
  get_elem? (x ∷ xs) zero = some x
  get_elem? (x ∷ xs) (suc i) = get_elem? xs i

  abbrev pub take : ℕ → List A → List A
  take zero xs = []
  take (suc n) [] = []
  take (suc n) (x ∷ xs) = x ∷ take n xs

  abbrev pub drop : ℕ → List A → List A
  drop zero xs = xs
  drop (suc n) [] = []
  drop (suc n) (x ∷ xs) = drop n xs

  abbrev pub replicate : ℕ → A → List A
  replicate zero a = []
  replicate (suc n) a = a ∷ replicate n a

  -- The array after a write; `none` behind its end.
  abbrev pub write? : List A → ℕ → A → Option (List A)
  write? [] i a = none
  write? (x ∷ xs) zero a = some (a ∷ xs)
  write? (x ∷ xs) (suc i) a = elim (write? xs i a) [ none ↦ none | some ys ↦ some (x ∷ ys) ]

  abbrev pub flatten : List (List A) → List A
  flatten [] = []
  flatten (xs ∷ xss) = xs ++ flatten xss

  pub length-append : (xs ys : List A) → length (xs ++ ys) ≡ length xs + length ys
  length-append [] ys = omega arith
  length-append (x ∷ xs) ys = omega (arith, length-append xs ys)

  pub length-take : (n : ℕ) (xs : List A) → length (take n xs) ≡ min n (length xs)
  length-take zero xs = omega arith
  length-take (suc n) [] = omega arith
  length-take (suc n) (x ∷ xs) = omega (arith, length-take n xs)

  pub length-drop : (n : ℕ) (xs : List A) → length (drop n xs) ≡ length xs - n
  length-drop zero xs = omega arith
  length-drop (suc n) [] = omega arith
  length-drop (suc n) (x ∷ xs) = omega (arith, length-drop n xs)

  pub length-replicate : (n : ℕ) (a : A) → length (replicate n a) ≡ n
  length-replicate zero a = refl
  length-replicate (suc n) a = ap suc (length-replicate n a)

  pub drop-all : (n : ℕ) (xs : List A) → length xs ≤ n → drop n xs ≡ []
  drop-all zero [] h = refl
  drop-all zero (x ∷ xs) h = absurd (omega arith)
  drop-all (suc n) [] h = refl
  drop-all (suc n) (x ∷ xs) h = drop-all n xs (omega arith)

  -- The element at an index is the head of what is left from there on.
  pub drop-get_elem? :
      (i : ℕ) (xs : List A) (x : A) → get_elem? xs i ≡ some x → drop i xs ≡ x ∷ drop (suc i) xs
  drop-get_elem? i [] x e = cc
  drop-get_elem? zero (y ∷ xs) x e = cc
  drop-get_elem? (suc i) (y ∷ xs) x e = drop-get_elem? i xs x e

  pub get_elem?-drop :
      (i : ℕ) (xs : List A) (x : A) (r : List A) → drop i xs ≡ x ∷ r → get_elem? xs i ≡ some x
  get_elem?-drop zero [] x r e = cc
  get_elem?-drop (suc i) [] x r e = cc
  get_elem?-drop zero (y ∷ xs) x r e = cc
  get_elem?-drop (suc i) (y ∷ xs) x r e = get_elem?-drop i xs x r e

  pub drop-suc :
      (i : ℕ) (xs : List A) (x : A) (r : List A) → drop i xs ≡ x ∷ r → drop (suc i) xs ≡ r
  drop-suc zero [] x r e = cc
  drop-suc (suc i) [] x r e = cc
  drop-suc zero (y ∷ xs) x r e = cc
  drop-suc (suc i) (y ∷ xs) x r e = drop-suc i xs x r e

  pub get_elem?-some : (xs : List A) (i : ℕ) → i < length xs → (x : A) × (get_elem? xs i ≡ some x)
  get_elem?-some [] i h = absurd (omega arith)
  get_elem?-some (x ∷ xs) zero h = (x, refl)
  get_elem?-some (x ∷ xs) (suc i) h = get_elem?-some xs i (omega arith)

  pub get_elem?-lt : (xs : List A) (i : ℕ) (x : A) → get_elem? xs i ≡ some x → i < length xs
  get_elem?-lt [] i x e = cc
  get_elem?-lt (y ∷ xs) zero x e = omega arith
  get_elem?-lt (y ∷ xs) (suc i) x e = omega (arith, get_elem?-lt xs i x e)

  pub get_elem?-append_left :
      (xs ys : List A) (i : ℕ) → i < length xs → get_elem? (xs ++ ys) i ≡ get_elem? xs i
  get_elem?-append_left [] ys i h = absurd (omega arith)
  get_elem?-append_left (x ∷ xs) ys zero h = refl
  get_elem?-append_left (x ∷ xs) ys (suc i) h = get_elem?-append_left xs ys i (omega arith)

  pub get_elem?-append_right :
      (xs ys : List A) (i j : ℕ) → j ≡ length xs + i → get_elem? (xs ++ ys) j ≡ get_elem? ys i
  get_elem?-append_right [] ys i j e = ap (get_elem? ys) (omega arith)
  get_elem?-append_right (x ∷ xs) ys i zero e = absurd (omega arith)
  get_elem?-append_right (x ∷ xs) ys i (suc j) e = get_elem?-append_right xs ys i j (omega arith)

  pub get_elem?-none : (xs : List A) (i : ℕ) → length xs ≤ i → get_elem? xs i ≡ none
  get_elem?-none [] i h = refl
  get_elem?-none (x ∷ xs) zero h = absurd (omega arith)
  get_elem?-none (x ∷ xs) (suc i) h = get_elem?-none xs i (omega arith)

  pub take-append_left : (n : ℕ) (xs ys : List A) → n ≤ length xs → take n (xs ++ ys) ≡ take n xs
  take-append_left zero xs ys h = refl
  take-append_left (suc n) [] ys h = absurd (omega arith)
  take-append_left (suc n) (x ∷ xs) ys h = ap (◌∷◌ x) (take-append_left n xs ys (omega arith))

  pub take-nil : (n : ℕ) → take n [] ≡ []
  take-nil zero = refl
  take-nil (suc n) = refl

  -- Taking in two steps.
  pub take-add : (n m : ℕ) (xs : List A) → n ≤ m → take n xs ++ take (m - n) (drop n xs) ≡ take m xs
  take-add zero m xs h = ap (λ k. take k xs) (omega arith)
  take-add (suc n) zero xs h = absurd (omega arith)
  take-add (suc n) (suc m) [] h = take-nil (suc m - suc n)
  take-add (suc n) (suc m) (x ∷ xs) h =
      ap (◌∷◌ x)
        (ap (λ k. take n xs ++ take k (drop n xs)) (omega arith) ∙ take-add n m xs (omega arith))

  pub drop-nil : (n : ℕ) → drop n [] ≡ []
  drop-nil zero = refl
  drop-nil (suc n) = refl

  pub drop-add : (p n : ℕ) (xs : List A) → drop (p + n) xs ≡ drop n (drop p xs)
  drop-add zero n xs = ap (λ k. drop k xs) (omega arith)
  drop-add (suc p) n [] = drop-nil (suc p + n) ∙ sym (drop-nil n)
  drop-add (suc p) n (x ∷ xs) = ap (λ k. drop k (x ∷ xs)) step ∙ drop-add p n xs
    where
      step : suc p + n ≡ suc (p + n)
      step = omega arith

  pub drop-append_left :
      (n : ℕ) (xs ys : List A) → n ≤ length xs → drop n (xs ++ ys) ≡ drop n xs ++ ys
  drop-append_left zero xs ys h = refl
  drop-append_left (suc n) [] ys h = absurd (omega arith)
  drop-append_left (suc n) (x ∷ xs) ys h = drop-append_left n xs ys (omega arith)

  pub drop-append_right :
      (n p : ℕ) (xs ys : List A) → p ≡ length xs + n → drop p (xs ++ ys) ≡ drop n ys
  drop-append_right n p [] ys e = ap (λ k. drop k ys) (omega arith)
  drop-append_right n zero (x ∷ xs) ys e = absurd (omega arith)
  drop-append_right n (suc p) (x ∷ xs) ys e = drop-append_right n p xs ys (omega arith)

  pub get_elem?-none-length : (xs : List A) (i : ℕ) → get_elem? xs i ≡ none → length xs ≤ i
  get_elem?-none-length [] i e = omega arith
  get_elem?-none-length (x ∷ xs) zero e = cc
  get_elem?-none-length (x ∷ xs) (suc i) e = omega (arith, get_elem?-none-length xs i e)

  -- What a read out of bounds gives is `d`.
  abbrev pub get_or : List A → ℕ → A → A
  get_or [] i d = d
  get_or (x ∷ xs) zero d = x
  get_or (x ∷ xs) (suc i) d = get_or xs i d

pub write?-none {ℓ} :
    {A : Type ℓ} (xs : List A) (i : ℕ) (a : A) → length xs ≤ i → write? xs i a ≡ none
write?-none [] i a h = refl
write?-none (x ∷ xs) zero a h = absurd (omega arith)
write?-none (x ∷ xs) (suc i) a h = rw (write?-none xs i a (omega arith)) refl

-- A write within the array: its length stays, the entry is there, and the other entries stay.
pub record Written {ℓ} {A : Type ℓ} (xs : List A) (i : ℕ) (a : A) (ys : List A) : Type ℓ where
  pub same_length : length ys ≡ length xs
  pub there : get_elem? ys i ≡ some a
  pub elsewhere : (j : ℕ) → j ≢ i → get_elem? ys j ≡ get_elem? xs j

pub write?-Written {ℓ} :
    {A : Type ℓ} (xs : List A) (i : ℕ) (a : A)
    → i < length xs
    → (ys : List A) × (write? xs i a ≡ some ys) × Written xs i a ys
write?-Written [] i a h = absurd (omega arith)
write?-Written {A = A} (x ∷ xs) zero a h =
    (a ∷ xs, refl, record { same_length = refl; there = refl; elsewhere = λ j n. other j n })
  where
    other : (j : ℕ) → j ≢ 0 → get_elem? (a ∷ xs) j ≡ get_elem? (x ∷ xs) j
    other zero n = absurd (n refl)
    other (suc j) n = refl
write?-Written {A = A} (x ∷ xs) (suc i) a h =
    let (ys, e, w) = write?-Written xs i a (omega arith) in
    (
      x ∷ ys,
      rw e refl,
      record {
        same_length = ap suc w.same_length;
        there = w.there;
        elsewhere = λ j n. other ys w j n;
      },
    )
  where
    other :
        (ys : List A)
        → Written xs i a ys
        → (j : ℕ) → j ≢ suc i
        → get_elem? (x ∷ ys) j ≡ get_elem? (x ∷ xs) j
    other ys w zero n = refl
    other ys w (suc j) n = w.elsewhere j (λ e. n (ap suc e))
