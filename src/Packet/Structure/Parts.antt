-- ===== src/Packet/Structure/Parts.antt =====
-- packet_parser/j2k_packet.cpp, parepare_tcomp_structure:
-- the parts of a precinct in its subbands.
use native.Mathlib.Nat.{mul-div-le, lt-mul-div-succ, mul-le-mul_left, mul-add, pow-le-pow_right}
use rtp_decoder_test.Base.{
  ℕ, zero, suc, ◌+◌, ◌-◌, ◌*◌, ◌/◌, ◌%◌, ◌^◌, ◌≤◌, ◌<◌, ◌≡◌, ◌⊎◌, inl, inr, ltb, Bool-cases, ltb→lt,
  arith,
}
use rtp_decoder_test.Header.Coc.{CocMarker}
use rtp_decoder_test.Tile.Grid.{Area}
use rtp_decoder_test.Packet.Block.{Block}
use rtp_decoder_test.Packet.Geometry.{both, uint_ceil, xob, yob}
use rtp_decoder_test.Packet.Geometry.Blocks.{reduction_x, reduction_y, part_of, block_count}
use rtp_decoder_test.Packet.Structure.{Prec, band_number, new_bands}
use rtp_decoder_test.Packet.Structure.Gives.{Gives, Anything, some-Gives, bind-Gives}
use rtp_decoder_test.Packet.Structure.Trees.{new_band-Gives}

-- A precinct of at most 2 ^ 15 columns and rows.
pub record IsNarrow (a : Area) : Type 0 where
  pub wide : a.x1 ≤ a.x0 + 2 ^ 15
  pub high : a.y1 ≤ a.y0 + 2 ^ 15
  pub x0_int : a.x0 < 2 ^ 31
  pub y0_int : a.y0 < 2 ^ 31
  pub x1_int : a.x1 < 2 ^ 31
  pub y1_int : a.y1 < 2 ^ 31

-- Code blocks of 4 to 1024 columns and rows, as the standard has them.
pub record HasBlockSize (coc : CocMarker) : Type 0 where
  pub least_w : 2 ≤ coc.style.cbw
  pub most_w : coc.style.cbw ≤ 10
  pub least_h : 2 ≤ coc.style.cbh
  pub most_h : coc.style.cbh ≤ 10

-- The reduction of a direction, with the offset of a subband.
abbrev IsOffset : ℕ → ℕ → Type 0
IsOffset sr ob = ((sr ≡ 2) × (ob ≤ 1)) ⊎ ((sr ≡ 1) × (ob ≡ 0))

edge_le :
    (sr ob x0 x1 : ℕ)
    → IsOffset sr ob
    → x0 < 2 ^ 31
    → x1 < 2 ^ 31
    → x1 ≤ x0 + 2 ^ 15
    → (uint_ceil ((x1 + 2 ^ 32 - ob) % 2 ^ 32) sr
        ≤ uint_ceil ((x0 + 2 ^ 32 - ob) % 2 ^ 32) sr + 2 ^ 15)
      × (uint_ceil ((x1 + 2 ^ 32 - ob) % 2 ^ 32) sr < 2 ^ 31)
unfolding uint_ceil
edge_le sr ob x0 x1 (inl (two, o)) a b h = rw two (omega arith, omega arith)
edge_le sr ob x0 x1 (inr (one, o)) a b h = rw (one, o) (omega arith, omega arith)

-- The cells of a grid that an interval meets.
cells_le :
    (s a b n m : ℕ) → 4 ≤ s → b ≤ a + 2 ^ 15 → a < s * m + s → s * n ≤ b + s - 1 → n ≤ m + 2 ^ 14
cells_le s a b n m l w low high = elim (Bool-cases (ltb (m + 2 ^ 14) n)) [
  | inl more ↦
      let over : s * (m + (2 ^ 14 + 1)) ≤ s * n = mul-le-mul_left s (ground (arith, more)) in
      absurd (omega (arith, mul-add s m (2 ^ 14 + 1)))
  | inr few ↦ ground (arith, few)
]

cells_ge : (s a b n m : ℕ) → a < b → s * m ≤ a → b + s - 1 < s * n + s → m ≤ n
cells_ge s a b n m h low high = elim (Bool-cases (ltb n m)) [
  | inl less ↦
      let under : s * (n + 1) ≤ s * m = mul-le-mul_left s (ground (arith, less)) in
      absurd (omega (arith, mul-add s n 1))
  | inr few ↦ ground (arith, few)
]

block_count-le :
    (s a b : ℕ) → 4 ≤ s → s ≤ 2 ^ 10 → b ≤ a + 2 ^ 15 → b < 2 ^ 31 → block_count s a b ≤ 2 ^ 14
unfolding block_count uint_ceil
block_count-le s a b l u w i =
    let wrapped : (b + (s - 1)) % 2 ^ 32 ≡ b + s - 1 = omega arith in
    let n = (b + s - 1) / s in
    let m = a / s in
    let pos : 0 < s = omega arith in
    let above : a < s * m + s = omega (arith, lt-mul-div-succ a pos, mul-add s m 1) in
    let few = cells_le s a b n m l w above (mul-div-le (b + s - 1) s) in
    elim (Bool-cases (ltb a b)) [
      | inl some_part ↦
          let more =
            cells_ge s a b n m (ltb→lt a b some_part) (mul-div-le a s)
              (omega (arith, lt-mul-div-succ (b + s - 1) pos, mul-add s n 1)) in
          rw (some_part, wrapped) (omega arith)
      | inr nothing ↦ rw nothing (omega arith)
    ]

x-IsOffset :
    (direction num b : ℕ)
    → (direction ≡ both) ⊎ (num ≡ 1)
    → b < 3
    → IsOffset (reduction_x direction) (xob (band_number num b))
unfolding reduction_x
x-IsOffset direction num b shape h = ground arith

y-IsOffset :
    (direction num b : ℕ)
    → (direction ≡ both) ⊎ (num ≡ 1)
    → b < 3
    → IsOffset (reduction_y direction) (yob (band_number num b))
unfolding reduction_y
y-IsOffset direction num b shape h = ground arith

-- The number of a power of 2 that a marker gives for the code blocks.
block_size : (e : ℕ) → 2 ≤ e → e ≤ 10 → (4 ≤ 2 ^ e) × (2 ^ e ≤ 2 ^ 10)
block_size e l u = (pow-le-pow_right two {i = 2} {j = e} l, pow-le-pow_right two {i = e} {j = 10} u)
  where
    two : 0 < 2
    two = omega arith

module _ (coc : CocMarker) (sizes : HasBlockSize coc) (direction : ℕ) where
  pub new_bands-Gives :
      (memory : ℕ → ℕ → Block) (n b : ℕ) (prec : Prec)
      → IsNarrow prec.coord
      → (direction ≡ both) ⊎ (prec.num_bands ≡ 1)
      → b + n ≤ 3
      → Gives Anything (new_bands memory coc direction n b prec)
  unfolding new_bands part_of
  new_bands-Gives memory zero b prec a d h = some-Gives Anything prec tt
  new_bands-Gives memory (suc n) b prec a d h =
      let (least_w, most_w) = block_size coc.style.cbw sizes.least_w sizes.most_w in
      let (least_h, most_h) = block_size coc.style.cbh sizes.least_h sizes.most_h in
      let x =
        edge_le _ _ prec.coord.x0 prec.coord.x1
          (x-IsOffset direction prec.num_bands b d (omega arith)) a.x0_int a.x1_int a.wide in
      let y =
        edge_le _ _ prec.coord.y0 prec.coord.y1
          (y-IsOffset direction prec.num_bands b d (omega arith)) a.y0_int a.y1_int a.high in
      bind-Gives Anything Anything
        (new_band-Gives (memory b) _ _ _ _ _ (block_count-le _ _ _ least_w most_w x.0 x.1)
          (block_count-le _ _ _ least_h most_h y.0 y.1))
        λ band _. new_bands-Gives memory n (b + 1) _ a d (omega arith)
