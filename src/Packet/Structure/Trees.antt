-- ===== src/Packet/Structure/Trees.antt =====
-- packet_parser/j2k_packet.cpp, parepare_tcomp_structure:
-- the tag trees and code blocks of a subband.
use native.Mathlib.Nat.{mul-le-mul}
use rtp_decoder_test.Base.{
  ℕ, zero, suc, ◌+◌, ◌*◌, ◌%◌, ◌^◌, ◌≤◌, ◌<◌, ◌≡◌, refl, inl, inr, false, ◌||◌, some, List, [],
  ◌++◌, ltb, ◌==◌, length, replicate, drop, length-replicate, length-append, get_elem?-some,
  Bool-cases, arith,
}
use rtp_decoder_test.Tile.Grid.{Area}
use rtp_decoder_test.Packet.Block.{Block}
use rtp_decoder_test.Packet.Tree.{
  TreeNode, zero_node, tree_fuel, tag_tree_size, tag_tree_init, tag_tree_zero,
}
use rtp_decoder_test.Packet.Tree.Levels.{tag_tree_init-IsTree, size_loop-le}
use rtp_decoder_test.Packet.Geometry.{◌>>=◌}
use rtp_decoder_test.Packet.Structure.{new_tree, leaf, new_cells, new_band}
use rtp_decoder_test.Packet.Structure.Gives.{Gives, Anything, some-Gives, bind-Gives}

pub size-covers : (w h n : ℕ) → tag_tree_size w h ≡ some n → w * h ≤ n
unfolding tag_tree_size
size-covers w h n e = omega (arith, size_loop-le tree_fuel w h 0 n (omega arith) e)

tag_tree_zero-covered :
    (w h n : ℕ) (nodes : List TreeNode)
    → tag_tree_size w h ≡ some n
    → length nodes ≡ n
    → tag_tree_zero nodes w h ≡ some (replicate n zero_node ++ drop n nodes)
unfolding tag_tree_zero
tag_tree_zero-covered w h n nodes e l = rw (e, tag_tree_zero) (rw (room) refl)
  where
    room : ltb (length nodes) n ≡ false
    room = ground (arith, l)

new_tree-made :
    (w h n : ℕ) (nodes : List TreeNode)
    → tag_tree_size w h ≡ some n
    → tag_tree_init (replicate n zero_node) w h ≡ some nodes
    → length nodes ≡ n
    → new_tree w h ≡ some (replicate n zero_node ++ drop n nodes)
unfolding new_tree
new_tree-made w h n nodes e r l =
    rw (e, ◌>>=◌) (rw (r, ◌>>=◌) (tag_tree_zero-covered w h n nodes e l))

-- A tag tree with a leaf for each code block.
new_tree-Gives :
    (w h : ℕ) → w ≤ 2 ^ 14 → h ≤ 2 ^ 14 → Gives (λ nodes. w * h ≤ length nodes) (new_tree w h)
new_tree-Gives w h hw hh =
    let (n, out, e, r, tree) =
      tag_tree_init-IsTree w h (λ n. replicate n zero_node) (λ n. length-replicate n zero_node) hw
        hh in
    record {
      value = replicate n zero_node ++ drop n out;
      is_some = new_tree-made w h n out e r tree.size;
      holds = omega (
        arith,
        size-covers w h n e,
        length-append (replicate n zero_node) (drop n out),
        length-replicate n zero_node,
      );
    }

leaf-Gives : (nodes : List TreeNode) (cb : ℕ) → cb < length nodes → Gives Anything (leaf nodes cb)
unfolding leaf
leaf-Gives nodes cb h =
    let (t, e) = get_elem?-some nodes cb h in
    record { value = record { val = t.val; vis = t.vis }; is_some = rw (e, leaf) refl; holds = tt }

new_cells-Gives :
    (memory : ℕ → Block) (incl zbp : List TreeNode) (n cb : ℕ)
    → cb + n ≤ length incl
    → cb + n ≤ length zbp
    → Gives Anything (new_cells memory incl zbp n cb)
unfolding new_cells
new_cells-Gives memory incl zbp zero cb i z = some-Gives Anything [] tt
new_cells-Gives memory incl zbp (suc n) cb i z =
    bind-Gives Anything Anything (leaf-Gives incl cb (omega arith)) λ a _.
      bind-Gives Anything Anything (leaf-Gives zbp cb (omega arith)) λ b _.
        bind-Gives Anything Anything
          (new_cells-Gives memory incl zbp n (cb + 1) (omega arith) (omega arith))
          λ rest _. some-Gives Anything _ tt

-- The code blocks of a subband of at most 2 ^ 14 columns and rows.
pub new_band-Gives :
    (memory : ℕ → Block) (cbw cbh : ℕ) (part : Area) (ncbw ncbh : ℕ)
    → ncbw ≤ 2 ^ 14
    → ncbh ≤ 2 ^ 14
    → Gives Anything (new_band memory cbw cbh part ncbw ncbh)
unfolding new_band
new_band-Gives memory cbw cbh part ncbw ncbh w h =
    let few : ncbw * ncbh ≤ 2 ^ 14 * 2 ^ 14 = mul-le-mul w h in
    elim (Bool-cases (ncbw == 0 || ncbh == 0)) [
      | inl empty ↦ rw empty (some-Gives Anything _ tt)
      | inr full ↦ rw full (
          bind-Gives _ Anything (new_tree-Gives ncbw ncbh w h) λ incl i.
            bind-Gives _ Anything (new_tree-Gives ncbw ncbh w h) λ zbp z.
              bind-Gives Anything Anything
                (new_cells-Gives memory incl zbp (ncbw * ncbh % 2 ^ 32) 0 (omega arith)
                  (omega arith))
                λ cells _. some-Gives Anything _ tt)
    ]
