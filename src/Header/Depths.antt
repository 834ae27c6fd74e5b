-- ===== src/Header/Depths.antt =====
-- packet_parser/j2k_header.cpp, parse_DFS: the depths of the levels, from their orientations.
use rtp_decoder_test.Base.{
  ℕ, zero, suc, ◌+◌, ◌/◌, ◌^◌, ◌≤◌, ◌<◌, ◌≡◌, ◌⊎◌, refl, sym, ap, ◌∙◌, inl, inr, some, List, arith,
  ◌==◌, if◌then◌else◌, length, get_elem?, write?, Written, write?-Written,
}
use rtp_decoder_test.Header.Dfs.{DfsMarker, ho, vo, orientations, depth, depths, padding, decompose}
use rtp_decoder_test.Header.Orient.{orientations-Oriented}

-- The depths of the level `lev`: a level splits in one direction or in both.
pub record IsDeep (lev hor ver : ℕ) : Type 0 where
  pub hor_bound : hor ≤ lev
  pub ver_bound : ver ≤ lev
  pub some_split : lev ≤ hor + ver

depth-suc :
    (orient : List ℕ) (lev o d : ℕ)
    → get_elem? orient (suc lev) ≡ some o
    → depth orient lev ≡ some d
    → depth orient (suc lev) ≡ some (if o == 0 then d + 1 else d)
unfolding depth
depth-suc orient lev o d e f = rw (e, depth) (rw f refl)

depths-suc :
    (n lev : ℕ) (orient out ys filled : List ℕ) (d : ℕ)
    → depth orient lev ≡ some d
    → write? out lev d ≡ some ys
    → depths n (lev + 1) orient ys ≡ some filled
    → depths (suc n) lev orient out ≡ some filled
unfolding depths
depths-suc n lev orient out ys filled d e f k = rw (e, depths) (rw f k)

IsDeep-suc :
    (t lev h v : ℕ)
    → IsDeep lev h v
    → IsDeep (suc lev) (if ho t == 0 then h + 1 else h) (if vo t == 0 then v + 1 else v)
IsDeep-suc t lev h v d = record {
  hor_bound = ground (arith, d.hor_bound);
  ver_bound = ground (arith, d.ver_bound);
  some_split = ground (arith, d.some_split);
}

-- The depths of the levels up to `n`, where they have the orientations of some type.
depth-IsDeep :
    (n : ℕ) (hs vs : List ℕ)
    → ((l : ℕ)
        → 1 ≤ l
        → l ≤ n
        → (t : ℕ) × (get_elem? hs l ≡ some (ho t)) × (get_elem? vs l ≡ some (vo t)))
    → (lev : ℕ) → lev ≤ n
    → (h v : ℕ) × (depth hs lev ≡ some h) × (depth vs lev ≡ some v) × IsDeep lev h v
unfolding depth
depth-IsDeep n hs vs entry zero q = (
  0,
  0,
  refl,
  refl,
  record { hor_bound = omega arith; ver_bound = omega arith; some_split = omega arith },
)
depth-IsDeep n hs vs entry (suc lev) q =
    let (h, v, e, f, d) = depth-IsDeep n hs vs entry lev (omega arith) in
    let (t, k, j) = entry (suc lev) (omega arith) q in
    (
      if ho t == 0 then h + 1 else h,
      if vo t == 0 then v + 1 else v,
      depth-suc hs lev (ho t) h k e,
      depth-suc vs lev (vo t) v j f,
      IsDeep-suc t lev h v d,
    )

-- Every level up to the last has the depth that the loops compute, in both arrays.
depths-filled :
    (n lev : ℕ) (orient out : List ℕ)
    → lev + n ≤ length out
    → ((l : ℕ) → l < lev + n → (d : ℕ) × (depth orient l ≡ some d))
    → (filled : List ℕ) × (depths n lev orient out ≡ some filled)
      × ((l : ℕ) → l < lev → get_elem? filled l ≡ get_elem? out l)
      × ((l : ℕ) → lev ≤ l → l < lev + n → get_elem? filled l ≡ depth orient l)
unfolding depths
depths-filled zero lev orient out b h = (out, refl, λ l p. refl, λ l p q. absurd (omega arith))
depths-filled (suc n) lev orient out b h =
    let (d, e) = h lev (omega arith) in
    let (ys, f, w) = write?-Written out lev d (omega arith) in
    let (filled, k, low, high) =
      depths-filled n (lev + 1) orient ys (omega (arith, w.same_length))
        (λ l p. h l (omega arith)) in
    (
      filled,
      depths-suc n lev orient out ys filled d e f k,
      λ l p. low l (omega arith) ∙ w.elsewhere l (λ i. omega arith),
      λ l p q. entry d ys filled e w low high l p q (omega arith),
    )
  where
    entry :
        (d : ℕ) (ys filled : List ℕ)
        → depth orient lev ≡ some d
        → Written out lev d ys
        → ((l : ℕ) → l < lev + 1 → get_elem? filled l ≡ get_elem? ys l)
        → ((l : ℕ) → lev + 1 ≤ l → l < lev + 1 + n → get_elem? filled l ≡ depth orient l)
        → (l : ℕ) → lev ≤ l
        → l < lev + suc n
        → (lev + 1 ≤ l) ⊎ (l ≡ lev)
        → get_elem? filled l ≡ depth orient l
    entry d ys filled e w low high l p q (inl after) = high l after (omega arith)
    entry d ys filled e w low high l p q (inr i) =
        low l (omega arith) ∙ ap (get_elem? ys) i ∙ w.there ∙ sym e ∙ ap (depth orient) (sym i)

-- The array ends behind the level `idfs`.
abbrev pub Room : DfsMarker → List ℕ → Type 0
Room dfs xs = dfs.idfs < length xs

pub record HasDepths (dfs : DfsMarker) (lev : ℕ) : Type 0 where
  pub hor : ℕ
  pub ver : ℕ
  pub hor_stored : get_elem? dfs.hor_depth lev ≡ some hor
  pub ver_stored : get_elem? dfs.ver_depth lev ≡ some ver
  pub deep : IsDeep lev hor ver

decompose-some :
    (bits : ℕ) (dfs new : DfsMarker) (hor ver : List ℕ)
    → orientations dfs.idfs (bits / 2 ^ padding dfs.idfs) dfs ≡ some new
    → depths (dfs.idfs + 1) 0 new.h_orient new.hor_depth ≡ some hor
    → depths (dfs.idfs + 1) 0 new.v_orient new.ver_depth ≡ some ver
    → decompose bits dfs ≡ some (record new { hor_depth = hor; ver_depth = ver })
unfolding decompose
decompose-some bits dfs new hor ver e f g = rw (e, decompose) (rw f (rw g refl))

-- Where the five arrays have room for the levels, what parse_DFS computes from any string does not
-- fault, and each level from 0 to the last has two depths: each at most the level, and together at least
-- the level.
pub decompose-HasDepths :
    (bits : ℕ) (dfs : DfsMarker)
    → Room dfs dfs.type
    → Room dfs dfs.h_orient
    → Room dfs dfs.v_orient
    → Room dfs dfs.hor_depth
    → Room dfs dfs.ver_depth
    → (new : DfsMarker) × (decompose bits dfs ≡ some new)
      × ((lev : ℕ) → lev ≤ dfs.idfs → HasDepths new lev)
decompose-HasDepths bits dfs a b c x y =
    let (o, e, oriented) = orientations-Oriented dfs.idfs (bits / 2 ^ padding dfs.idfs) dfs a b c in
    let deep = depth-IsDeep dfs.idfs o.h_orient o.v_orient oriented.entry in
    let (hor, f, _, hs) =
      depths-filled (dfs.idfs + 1) 0 o.h_orient o.hor_depth
        (omega (arith, ap length oriented.same_hor))
        (λ l p. let (h, v, i, j, k) = deep l (omega arith) in (h, i)) in
    let (ver, g, _, vs) =
      depths-filled (dfs.idfs + 1) 0 o.v_orient o.ver_depth
        (omega (arith, ap length oriented.same_ver))
        (λ l p. let (h, v, i, j, k) = deep l (omega arith) in (v, j)) in
    (
      record o { hor_depth = hor; ver_depth = ver },
      decompose-some bits dfs o hor ver e f g,
      λ lev p.
          let (h, v, i, j, k) = deep lev p in
          record {
            hor = h;
            ver = v;
            hor_stored = hs lev (omega arith) (omega arith) ∙ i;
            ver_stored = vs lev (omega arith) (omega arith) ∙ j;
            deep = k;
          },
    )
