-- ===== src/Tile/Grid.antt =====
-- packet_parser/tile_handler.hpp, create: the tiles of an image and their rectangles, in unsigned 32-bit
-- numbers. A division by 0 is the fault `none`.
use rtp_decoder_test.Base.{
  ℕ, zero, suc, ◌+◌, ◌-◌, ◌*◌, ◌/◌, ◌%◌, ◌^◌, ◌≤◌, ◌<◌, ◌≡◌, refl, ap, ◌∙◌, Option, none, some,
  List, [], ◌∷◌, arith, ltb, false, ◌==◌, if◌then◌else◌,
}
use native.Mathlib.Nat.{div-eq-sub-div, div-eq_of_lt}
use rtp_decoder_test.Header.{SizMarker}

-- The macro ceildiv_int.
unfoldable pub ceildiv : ℕ → ℕ → Option ℕ
ceildiv a b = if b == 0 then none else some ((a + b + (2 ^ 32 - 1)) % 2 ^ 32 / b)

-- The edges of the tile with the index `k` in a direction.
unfoldable pub low_edge : ℕ → ℕ → ℕ → ℕ → ℕ
low_edge origin size k edge = let x = (origin + k * size) % 2 ^ 32 in if ltb edge x then x else edge

unfoldable pub high_edge : ℕ → ℕ → ℕ → ℕ → ℕ
high_edge origin size k edge =
    let x = (origin + (k + 1) * size) % 2 ^ 32 in if ltb x edge then x else edge

pub record Area : Type 0 where
  pub x0 : ℕ
  pub y0 : ℕ
  pub x1 : ℕ
  pub y1 : ℕ

-- The rectangle of the tile `t`; its row is `t / num_tiles_y`.
unfoldable pub tile_area : SizMarker → ℕ → ℕ → ℕ → Area
tile_area siz nx ny t = record {
  x0 = low_edge siz.xtosiz siz.xtsiz (t % nx) siz.xosiz;
  y0 = low_edge siz.ytosiz siz.ytsiz (t / ny) siz.yosiz;
  x1 = high_edge siz.xtosiz siz.xtsiz (t % nx) siz.xsiz;
  y1 = high_edge siz.ytosiz siz.ytsiz (t / ny) siz.ysiz;
}

-- The loop for `n` more tiles from `t` on.
unfoldable pub tile_areas : SizMarker → ℕ → ℕ → ℕ → ℕ → List Area
tile_areas siz nx ny zero t = []
tile_areas siz nx ny (suc n) t = tile_area siz nx ny t ∷ tile_areas siz nx ny n (t + 1)

-- All tiles; the loop runs for `num_tiles_x` of them where `num_tiles_y` is not 0.
unfoldable pub create_areas : SizMarker → Option (List Area)
create_areas siz = elim (ceildiv ((siz.xsiz + 2 ^ 32 - siz.xtosiz) % 2 ^ 32) siz.xtsiz) [
  | none ↦ none
  | some nx ↦ elim (ceildiv ((siz.ysiz + 2 ^ 32 - siz.ytosiz) % 2 ^ 32) siz.ytsiz) [
    | none ↦ none
    | some ny ↦ some (if ny == 0 then [] else tile_areas siz nx ny nx 0)
  ]
]

-- In one direction, the first tile has the whole image.
pub record IsSpan (origin size edge end : ℕ) : Type 0 where
  pub from_origin : origin ≤ edge
  pub not_empty : edge < end
  pub within : end ≤ origin + size
  pub small : origin + size < 2 ^ 31

ceildiv-one : (a b : ℕ) → 0 < a → a ≤ b → b < 2 ^ 31 → ceildiv a b ≡ some 1
unfolding ceildiv
ceildiv-one a b p l s = rw nonzero (ap some (ap (λ n. n / b) reduced ∙ quotient))
  where
    nonzero : (b == 0) ≡ false
    nonzero = ground (arith, p, l)

    reduced : (a + b + (2 ^ 32 - 1)) % 2 ^ 32 ≡ a + b - 1
    reduced = omega (arith, p, l, s)

    quotient : (a + b - 1) / b ≡ 1
    quotient =
        div-eq-sub-div {m = b} {n = a + b - 1} (omega (arith, p, l)) (omega (arith, p))
        ∙ ap (λ q. q + 1) (div-eq_of_lt (omega (arith, p, l)))

count-one :
    (origin size edge end : ℕ)
    → IsSpan origin size edge end
    → ceildiv ((end + 2 ^ 32 - origin) % 2 ^ 32) size ≡ some 1
count-one origin size edge end h =
    ceildiv-one ((end + 2 ^ 32 - origin) % 2 ^ 32) size
      (omega (arith, h.from_origin, h.not_empty, h.within, h.small))
      (omega (arith, h.from_origin, h.not_empty, h.within, h.small)) (omega (arith, h.small))

low_edge-first :
    (origin size edge end : ℕ) → IsSpan origin size edge end → low_edge origin size 0 edge ≡ edge
unfolding low_edge
low_edge-first origin size edge end h =
    ground (arith, h.from_origin, h.not_empty, h.within, h.small)

high_edge-first :
    (origin size edge end : ℕ) → IsSpan origin size edge end → high_edge origin size 0 end ≡ end
unfolding high_edge
high_edge-first origin size edge end h =
    ground (arith, h.from_origin, h.not_empty, h.within, h.small)

-- Where the image lies within the first tile of the grid, whose edges are below 2 ^ 31, create makes one
-- tile, and its rectangle is the image area: from the image's offset up to its size.
pub create_areas-one :
    (siz : SizMarker)
    → IsSpan siz.xtosiz siz.xtsiz siz.xosiz siz.xsiz
    → IsSpan siz.ytosiz siz.ytsiz siz.yosiz siz.ysiz
    → create_areas siz
      ≡ some (record { x0 = siz.xosiz; y0 = siz.yosiz; x1 = siz.xsiz; y1 = siz.ysiz } ∷ [])
unfolding create_areas tile_areas tile_area
create_areas-one siz h v =
    rw (count-one siz.xtosiz siz.xtsiz siz.xosiz siz.xsiz h, create_areas)
      (rw (count-one siz.ytosiz siz.ytsiz siz.yosiz siz.ysiz v) (
        rw
          (
            low_edge-first siz.xtosiz siz.xtsiz siz.xosiz siz.xsiz h,
            low_edge-first siz.ytosiz siz.ytsiz siz.yosiz siz.ysiz v,
            high_edge-first siz.xtosiz siz.xtsiz siz.xosiz siz.xsiz h,
            high_edge-first siz.ytosiz siz.ytsiz siz.yosiz siz.ysiz v,
          )
          refl))
