-- ===== src/Packet/Tree/Links.antt =====
-- packet_parser/j2k_packet.cpp, tag_tree_init: the parents that it writes.
use mathlib.Core.Path.{subst}
use rtp_decoder_test.Base.{
  ℕ, zero, suc, ◌+◌, ◌-◌, ◌*◌, ◌/◌, ◌%◌, ◌^◌, ◌≤◌, ◌<◌, ◌≡◌, ◌≢◌, refl, ◌∙◌, inl, inr, Option, none,
  some, List, ltb, get_elem?, length, get_elem?-some, Written, write?-Written, Bool-cases, arith,
}
use native.Mathlib.Nat.{mul_comm}
use rtp_decoder_test.Packet.Tree.{TreeNode, halved, set_parent, Level, link_row, link_rows, link}

-- The node `k` has a parent behind it, within `n` nodes.
pub record HasParent (nodes : List TreeNode) (n k : ℕ) : Type 0 where
  pub node : TreeNode
  pub up : ℕ
  pub is_there : get_elem? nodes k ≡ some node
  pub is_up : node.parent ≡ some up
  pub behind : k < up
  pub within : up < n

-- The parents of the nodes below `c` have been written.
pub record Linked (n c : ℕ) (nodes : List TreeNode) : Type 0 where
  pub size : length nodes ≡ n
  pub linked : (k : ℕ) → k < c → HasParent nodes n k

-- Every node but the last has a parent behind it, and the last has none.
pub record IsTree (n : ℕ) (nodes : List TreeNode) : Type 0 where
  pub size : length nodes ≡ n
  pub not_empty : 0 < n
  pub inner : (k : ℕ) → k + 1 < n → HasParent nodes n k
  pub root : TreeNode
  pub is_last : get_elem? nodes (n - 1) ≡ some root
  pub is_root : root.parent ≡ none

pub set_parent-Written :
    (nodes : List TreeNode) (k : ℕ) (p : Option ℕ)
    → k < length nodes
    → (node : TreeNode) × (out : List TreeNode) × (set_parent nodes k p ≡ some out)
      × Written nodes k (record node { parent = p }) out
unfolding set_parent
set_parent-Written nodes k p h =
    let (node, e) = get_elem?-some nodes k h in
    let (out, f, w) = write?-Written nodes k (record node { parent = p }) h in
    (node, out, rw (e, set_parent) f, w)

-- A write leaves the parents of the other nodes.
pub HasParent-elsewhere :
    {nodes out : List TreeNode} {n k c : ℕ} {node : TreeNode}
    → Written nodes c node out
    → k ≢ c
    → HasParent nodes n k
    → HasParent out n k
HasParent-elsewhere {k = k} w ne h = record {
  node = h.node;
  up = h.up;
  is_there = w.elsewhere k ne ∙ h.is_there;
  is_up = h.is_up;
  behind = h.behind;
  within = h.within;
}

set_parent-Linked :
    (n c q : ℕ) (nodes : List TreeNode)
    → Linked n c nodes
    → c < q
    → q < n
    → (out : List TreeNode) × (set_parent nodes c (some q) ≡ some out) × Linked n (c + 1) out
set_parent-Linked n c q nodes l behind within =
    let (node, out, e, w) = set_parent-Written nodes c (some q) (omega (arith, l.size)) in
    (
      out,
      e,
      record {
        size = w.same_length ∙ l.size;
        linked = λ k h. elim (Bool-cases (ltb k c)) [
          | inl old ↦ HasParent-elsewhere w (ground (arith, old)) (l.linked k (ground (arith, old)))
          | inr new ↦
              let here : k ≡ c = ground (arith, new) in
              rw here (record {
                node = record node { parent = some q };
                up = q;
                is_there = w.there;
                is_up = refl;
                behind = behind;
                within = within;
              })
        ];
      },
    )

index_below : (w h i j : ℕ) → i < h → j < w → i * w + j < w * h
index_below w h i j hi hj = grind arith

half_below : (k n : ℕ) → k < n → n < 2 ^ 31 → k / 2 < halved n
unfolding halved
half_below k n h s = omega arith

-- A node of the level, and its parent in the level above, lie within the levels.
link_bounds :
    (pw ph i j n : ℕ)
    → i < ph
    → j < pw
    → pw * ph + halved pw * halved ph ≤ n
    → n < 2 ^ 31
    → (i * pw + j < pw * ph) × (i / 2 * halved pw + j / 2 < halved pw * halved ph)
link_bounds pw ph i j n hi hj fits small = (
  index_below pw ph i j hi hj,
  index_below (halved pw) (halved ph) (i / 2) (j / 2)
      (half_below i ph hi (omega (arith, le_product ph pw (omega arith), mul_comm ph pw)))
      (half_below j pw hj (omega (arith, le_product pw ph (omega arith)))),
)
  where
    le_product : (a b : ℕ) → 0 < b → a ≤ a * b
    le_product a b h = grind arith

-- What the loops over a level are run with.
pub record Fits (l : Level) (ph n : ℕ) : Type 0 where
  pub next : l.t2 ≡ l.t + l.pw * ph
  pub room : l.t2 + halved l.pw * halved ph ≤ n
  pub small : n < 2 ^ 31

link-Linked :
    (l : Level) (ph n i j : ℕ) (nodes : List TreeNode)
    → Fits l ph n
    → i < ph
    → j < l.pw
    → Linked n (l.t + (i * l.pw + j)) nodes
    → (out : List TreeNode) × (link l i j nodes ≡ some out)
      × Linked n (l.t + (i * l.pw + (j + 1))) out
unfolding link
link-Linked l ph n i j nodes f hi hj p =
    let (at, up) = link_bounds l.pw ph i j n hi hj (omega (arith, f.next, f.room)) f.small in
    let here : l.t + (i * l.pw + j) % 2 ^ 32 ≡ l.t + (i * l.pw + j) =
      omega (arith, f.next, f.room, f.small, at) in
    let above : (i / 2 * halved l.pw + j / 2) % 2 ^ 32 ≡ i / 2 * halved l.pw + j / 2 =
      omega (arith, f.next, f.room, f.small, up) in
    rw (here, above)
      (let (out, e, p') =
          set_parent-Linked n (l.t + (i * l.pw + j)) (l.t2 + (i / 2 * halved l.pw + j / 2)) nodes p
            (omega (arith, f.next, at)) (omega (arith, f.room, up)) in
        (out, e, subst (λ k. Linked n k out) (omega arith) p'))

-- The parents of a row from the column `j` on are written, without a fault.
link_row-Linked :
    (l : Level) (ph n i : ℕ)
    → Fits l ph n
    → i < ph
    → (m j : ℕ) (nodes : List TreeNode) → j + m ≡ l.pw
    → Linked n (l.t + (i * l.pw + j)) nodes
    → (out : List TreeNode) × (link_row l i m j nodes ≡ some out)
      × Linked n (l.t + (i * l.pw + l.pw)) out
unfolding link_row
link_row-Linked l ph n i f hi zero j nodes e p =
    (nodes, refl, subst (λ k. Linked n (l.t + (i * l.pw + k)) nodes) (omega arith) p)
link_row-Linked l ph n i f hi (suc m) j nodes e p =
    let (linked, w, p') = link-Linked l ph n i j nodes f hi (omega arith) p in
    let (out, r, p'') = link_row-Linked l ph n i f hi m (j + 1) linked (omega arith) p' in
    (out, rw (w, link_row) r, p'')

-- The parents of the rows from `i` on are written.
pub link_rows-Linked :
    (l : Level) (ph n : ℕ)
    → Fits l ph n
    → (m i : ℕ) (nodes : List TreeNode) → i + m ≡ ph
    → Linked n (l.t + i * l.pw) nodes
    → (out : List TreeNode) × (link_rows l m i nodes ≡ some out) × Linked n l.t2 out
unfolding link_rows
link_rows-Linked l ph n f zero i nodes e p =
    (nodes, refl, subst (λ k. Linked n k nodes) (grind (arith, f.next)) p)
link_rows-Linked l ph n f (suc m) i nodes e p =
    let (linked, w, p') =
      link_row-Linked l ph n i f (omega arith) l.pw 0 nodes (omega arith)
        (subst (λ k. Linked n k nodes) (omega arith) p) in
    let (out, r, p'') =
      link_rows-Linked l ph n f m (i + 1) linked (omega arith)
        (subst (λ k. Linked n k linked) (grind arith) p') in
    (out, rw (w, link_rows) r, p'')
