-- ===== src/Packet/Tree.antt =====
-- packet_parser/j2k_packet.cpp, tag_tree_size, tag_tree_init and tag_tree_zero: the nodes of a tag tree in
-- one block of memory, level behind level. A pointer to a node is its index in the block. An assert that
-- fails is the fault `none`, and so is a write behind the block.
pub mod Links
pub mod Levels
use rtp_decoder_test.Base.{
  ℕ, zero, suc, ◌+◌, ◌-◌, ◌*◌, ◌/◌, ◌%◌, ◌^◌, ◌||◌, Option, none, some, List, ◌++◌, ltb,
  if◌then◌else◌, get_elem?, write?, length, replicate, drop,
}

-- tagtree_node
pub record TreeNode : Type 0 where
  pub val : ℕ
  pub temp_val : ℕ
  pub vis : ℕ
  pub parent : Option ℕ

-- The width or height of the level above.
unfoldable pub halved : ℕ → ℕ
halved w = (w + 1) % 2 ^ 32 / 2

-- The loop of tag_tree_size, on fuel; the result is a uint64_t, which the sum does not reach.
unfoldable pub size_loop : ℕ → ℕ → ℕ → ℕ → Option ℕ
size_loop zero w h res = none
size_loop (suc n) w h res =
    let rest = size_loop n (halved w) (halved h) (res + w * h) in
    let on = if ltb (res + w * h + 1) (2 ^ 31 - 1) then rest else none in
    if ltb 1 w || ltb 1 h then on else some (res + 1)

-- 32 rounds halve a uint32_t to 1, and one more leaves the loop.
abbrev pub tree_fuel : ℕ
tree_fuel = 33

unfoldable pub tag_tree_size : ℕ → ℕ → Option ℕ
tag_tree_size w h = size_loop tree_fuel w h 0

unfoldable pub set_parent : List TreeNode → ℕ → Option ℕ → Option (List TreeNode)
set_parent nodes k p = elim (get_elem? nodes k) [
  | none ↦ none
  | some node ↦ write? nodes k (record node { parent = p })
]

-- A level: its width, its first node, and the first node of the level above.
pub record Level : Type 0 where
  pub pw : ℕ
  pub t : ℕ
  pub t2 : ℕ

-- The assignment to the parent of the node in the row `i` and the column `j`.
unfoldable pub link : Level → ℕ → ℕ → List TreeNode → Option (List TreeNode)
link l i j nodes =
    set_parent nodes (l.t + (i * l.pw + j) % 2 ^ 32)
      (some (l.t2 + (i / 2 * halved l.pw + j / 2) % 2 ^ 32))

-- The loop over a row `i`, for `n` more nodes from the column `j` on.
unfoldable pub link_row : Level → ℕ → ℕ → ℕ → List TreeNode → Option (List TreeNode)
link_row l i zero j nodes = some nodes
link_row l i (suc n) j nodes = elim (link l i j nodes) [
  | none ↦ none
  | some linked ↦ link_row l i n (j + 1) linked
]

-- The loop over the rows of a level, for `m` more of them from `i` on.
unfoldable pub link_rows : Level → ℕ → ℕ → List TreeNode → Option (List TreeNode)
link_rows l zero i nodes = some nodes
link_rows l (suc m) i nodes = elim (link_row l i l.pw 0 nodes) [
  | none ↦ none
  | some linked ↦ link_rows l m (i + 1) linked
]

-- The loop over the levels, on fuel, and the root behind it.
unfoldable pub link_levels : ℕ → ℕ → ℕ → ℕ → List TreeNode → Option (List TreeNode)
link_levels zero w h t nodes = none
link_levels (suc n) w h t nodes =
    let t2 = t + w * h % 2 ^ 32 in
    let on : Option (List TreeNode) =
      elim (link_rows (record { pw = w; t = t; t2 = t2 }) h 0 nodes) [
        | none ↦ none
        | some linked ↦ link_levels n (halved w) (halved h) t2 linked
      ] in
    if ltb 1 w || ltb 1 h then on else set_parent nodes t none

-- `nodes` is the block that stackAlloc has given out.
unfoldable pub tag_tree_init : List TreeNode → ℕ → ℕ → Option (List TreeNode)
tag_tree_init nodes w h = link_levels tree_fuel w h 0 nodes

abbrev pub zero_node : TreeNode
zero_node = record { val = 0; temp_val = 0; vis = 0; parent = none }

-- The memset of all nodes, their parents included.
unfoldable pub tag_tree_zero : List TreeNode → ℕ → ℕ → Option (List TreeNode)
tag_tree_zero nodes w h = elim (tag_tree_size w h) [
  | none ↦ none
  | some siz ↦
      if ltb (length nodes) siz then none else some (replicate siz zero_node ++ drop siz nodes)
]
