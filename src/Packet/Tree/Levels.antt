-- ===== src/Packet/Tree/Levels.antt =====
-- packet_parser/j2k_packet.cpp, tag_tree_size and tag_tree_init: the loops over the levels.
use mathlib.Core.Path.{subst}
use native.Mathlib.Nat.{mul-le-mul}
use rtp_decoder_test.Base.{
  ℕ, zero, suc, ◌+◌, ◌-◌, ◌*◌, ◌%◌, ◌^◌, ◌≤◌, ◌<◌, ◌≡◌, refl, ◌∙◌, sym, inl, inr, true, false, ◌||◌,
  none, some, List, ltb, get_elem?, length, Bool-cases, ltb→lt, lt→ltb, arith,
}
use rtp_decoder_test.Packet.Tree.{
  TreeNode, halved, size_loop, tree_fuel, tag_tree_size, set_parent, link_levels, tag_tree_init,
}
use rtp_decoder_test.Packet.Tree.Links.{
  Linked, IsTree, HasParent-elsewhere, set_parent-Written, link_rows-Linked,
}

-- What a round of tag_tree_size that goes on has found.
size_loop-on :
    (f w h t n : ℕ)
    → (ltb 1 w || ltb 1 h) ≡ true
    → size_loop (suc f) w h t ≡ some n
    → (t + w * h + 1 < 2 ^ 31 - 1) × (size_loop f (halved w) (halved h) (t + w * h) ≡ some n)
unfolding size_loop
size_loop-on f w h t n on e =
    let e' = rw (on, size_loop) at e in
    elim (Bool-cases (ltb (t + w * h + 1) (2 ^ 31 - 1))) [
      | inl small ↦ (ltb→lt _ _ small, rw small at e')
      | inr large ↦ (let e'' = rw large at e' in cc)
    ]

size_loop-done :
    (f w h t n : ℕ)
    → (ltb 1 w || ltb 1 h) ≡ false
    → size_loop (suc f) w h t ≡ some n
    → (w * h ≤ 1) × (n ≡ t + 1)
unfolding size_loop
size_loop-done f w h t n done e = (
  at_most_one w h (ground (arith, done)) (ground (arith, done)),
  ground (arith, rw (done, size_loop) at e),
)
  where
    at_most_one : (a b : ℕ) → a ≤ 1 → b ≤ 1 → a * b ≤ 1
    at_most_one a b p q = grind arith

-- The size covers the level that the loop stands at, and is an int.
pub size_loop-le :
    (f w h t n : ℕ)
    → t + 1 < 2 ^ 31
    → size_loop f w h t ≡ some n
    → (t + w * h ≤ n) × (t < n) × (n < 2 ^ 31)
unfolding size_loop
size_loop-le zero w h t n s e = cc
size_loop-le (suc f) w h t n s e = elim (Bool-cases (ltb 1 w || ltb 1 h)) [
  | inl on ↦
      let (small, deeper) = size_loop-on f w h t n on e in
      omega (arith, size_loop-le f (halved w) (halved h) (t + w * h) n (omega arith) deeper)
  | inr done ↦ omega (arith, size_loop-done f w h t n done e)
]

link_levels-IsTree :
    (f w h t n : ℕ) (nodes : List TreeNode)
    → t + 1 < 2 ^ 31
    → size_loop f w h t ≡ some n
    → Linked n t nodes
    → (out : List TreeNode) × (link_levels f w h t nodes ≡ some out) × IsTree n out
unfolding link_levels size_loop
link_levels-IsTree zero w h t n nodes s e p = cc
link_levels-IsTree (suc f) w h t n nodes s e p = elim (Bool-cases (ltb 1 w || ltb 1 h)) [
  | inl on ↦
      let (small, deeper) = size_loop-on f w h t n on e in
      let t2 = t + w * h % 2 ^ 32 in
      let same : t + w * h ≡ t2 = omega arith in
      let counted = subst (λ k. size_loop f (halved w) (halved h) k ≡ some n) same deeper in
      let covered = size_loop-le f (halved w) (halved h) t2 n (omega arith) counted in
      let (linked, r, p') =
        link_rows-Linked (record { pw = w; t = t; t2 = t2 }) h n
          (record { next = sym same; room = covered.0; small = covered.2 }) h 0 nodes (omega arith)
          (subst (λ k. Linked n k nodes) (omega arith) p) in
      let (out, r', tree) =
        link_levels-IsTree f (halved w) (halved h) t2 n linked (omega arith) counted p' in
      (out, rw (on, r, link_levels) r', tree)
  | inr done ↦ let (out, r, tree) = root_of done in (out, rw (done, link_levels) r, tree)
]
  where
    root_of :
        (ltb 1 w || ltb 1 h) ≡ false
        → (out : List TreeNode) × (set_parent nodes t none ≡ some out) × IsTree n out
    root_of done =
        let (small, end) = size_loop-done f w h t n done e in
        let (node, out, w', written) = set_parent-Written nodes t none (omega (arith, p.size)) in
        (
          out,
          w',
          record {
            size = written.same_length ∙ p.size;
            not_empty = omega arith;
            inner = λ k h.
                HasParent-elsewhere written (λ same. absurd (omega arith))
                  (p.linked k (omega arith));
            root = record node { parent = none };
            is_last =
                subst (λ k. get_elem? out k ≡ some (record node { parent = none })) (omega arith)
                  written.there;
            is_root = refl;
          },
        )

halved-le : (w p : ℕ) → w ≤ 2 * p → p < 2 ^ 30 → halved w ≤ p
unfolding halved
halved-le w p h s = omega arith

-- The size of a tree whose width and height are 2 ^ k at most, behind `t` nodes.
size_loop-IsSome :
    (k f w h t p : ℕ)
    → p ≡ 2 ^ k
    → p < 2 ^ 30
    → k < f
    → w ≤ p
    → h ≤ p
    → t + 2 * (p * p) < 2 ^ 31 - 2
    → (n : ℕ) × (size_loop f w h t ≡ some n)
unfolding size_loop
size_loop-IsSome k zero w h t p e s hk hw hh hp = absurd (omega arith)
size_loop-IsSome zero (suc f) w h t p e s hk hw hh hp = (t + 1, ground arith)
size_loop-IsSome (suc k) (suc f) w h t p e s hk hw hh hp =
    let q = 2 ^ k in
    let twice : p ≡ 2 * q = e ∙ omega arith in
    let square : p * p ≡ 4 * (q * q) = rw twice (grind arith) in
    let area : w * h ≤ p * p = mul-le-mul hw hh in
    let (n, r) =
      size_loop-IsSome k f (halved w) (halved h) (t + w * h) q refl (omega arith) (omega arith)
        (halved-le w q (omega arith) (omega arith)) (halved-le h q (omega arith) (omega arith))
        (omega arith) in
    elim (Bool-cases (ltb 1 w || ltb 1 h)) [
      | inl on ↦ (n, rw (on, lt→ltb (t + w * h + 1) (2 ^ 31 - 1) (omega arith)) r)
      | inr done ↦ (t + 1, rw done refl)
    ]

tag_tree_size-IsSome : (w h : ℕ) → w ≤ 2 ^ 14 → h ≤ 2 ^ 14 → (n : ℕ) × (tag_tree_size w h ≡ some n)
unfolding tag_tree_size
tag_tree_size-IsSome w h hw hh =
    size_loop-IsSome 14 tree_fuel w h 0 (2 ^ 14) refl (omega arith) (omega arith) hw hh
      (omega arith)

-- The tag tree of at most 2 ^ 14 columns and rows, in memory that holds anything: its size is computed
-- without a failing assert, and in a block of that many nodes tag_tree_init writes the parents without a
-- fault. Every node but the last gets a parent that stands behind it and within the block, and the last
-- node, the root, has none.
pub tag_tree_init-IsTree :
    (w h : ℕ) (memory : ℕ → List TreeNode)
    → ((n : ℕ) → length (memory n) ≡ n)
    → w ≤ 2 ^ 14
    → h ≤ 2 ^ 14
    → (n : ℕ) × (out : List TreeNode) × (tag_tree_size w h ≡ some n)
      × (tag_tree_init (memory n) w h ≡ some out)
      × IsTree n out
unfolding tag_tree_size tag_tree_init
tag_tree_init-IsTree w h memory l hw hh =
    let (n, e) = tag_tree_size-IsSome w h hw hh in
    let (out, r, tree) =
      link_levels-IsTree tree_fuel w h 0 n (memory n) (omega arith) e
        (record { size = l n; linked = λ k h. absurd (omega arith) }) in
    (n, out, e, r, tree)
