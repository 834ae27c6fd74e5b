-- ===== src/Packet/Structure/Resolutions.antt =====
-- packet_parser/j2k_packet.cpp, parepare_tcomp_structure:
-- the resolutions of a component.
use mathlib.Core.Path.{subst}
use native.Mathlib.Nat.{mod-le, one-le-pow, pow-le-pow_right}
use rtp_decoder_test.Base.{
  ℕ, zero, suc, ◌+◌, ◌-◌, ◌*◌, ◌%◌, ◌^◌, ◌≤◌, ◌<◌, ◌≡◌, ◌⊎◌, refl, inl, inr, Option, none, some,
  false, List, [], leb, ◌==◌, get_elem?, Bool-cases, arith,
}
use rtp_decoder_test.Header.Coc.{CocMarker}
use rtp_decoder_test.Header.Dfs.{DfsMarker}
use rtp_decoder_test.Tile.Grid.{Area}
use rtp_decoder_test.Packet.Block.{Block}
use rtp_decoder_test.Packet.Geometry.{both, Above}
use rtp_decoder_test.Packet.Structure.{
  Memory, Res, new_precincts, band_level, new_resolution, new_resolutions, parepare_tcomp_structure,
  subbands,
}
use rtp_decoder_test.Packet.Structure.Gives.{Gives, Anything, some-Gives, bind-Gives}
use rtp_decoder_test.Packet.Structure.Areas.{IsBelow, IsKnown, scaled-Gives, band_areas-Gives}
use rtp_decoder_test.Packet.Structure.Parts.{HasBlockSize}
use rtp_decoder_test.Packet.Structure.Precincts.{AreCut, precinct_count-Gives, new_precincts-Gives}

-- Markers that agree with one another, for at least one level: a type of a direction for each level, and an
-- entry behind them, depths of at most 5, precinct sizes of 4 bits, and code blocks as in the standard.
pub record HasShape (coc : CocMarker) (dfs : DfsMarker) : Type 0 where
  pub least : 1 ≤ coc.style.nl
  pub most : coc.style.nl < 6
  pub types :
      (k : ℕ) → 1 ≤ k → k ≤ coc.style.nl → Gives (λ t. (1 ≤ t) × (t ≤ 3)) (get_elem? dfs.type k)
  pub lowest : Gives Anything (get_elem? dfs.type (coc.style.nl + 1))
  pub hor : (k : ℕ) → k ≤ coc.style.nl → Gives (λ d. d ≤ 5) (get_elem? dfs.hor_depth k)
  pub ver : (k : ℕ) → k ≤ coc.style.nl → Gives (λ d. d ≤ 5) (get_elem? dfs.ver_depth k)
  pub sizes :
      (r : ℕ) → r ≤ coc.style.nl → Gives (λ p. (p.0 < 16) × (p.1 < 16)) (get_elem? coc.style.pr r)
  pub blocks : HasBlockSize coc

power : (d : ℕ) → d ≤ 5 → (0 < 2 ^ d) × (2 ^ d ≤ 32)
power d h = (one-le-pow d 2 (omega arith), pow-le-pow_right two {i = d} {j = 5} h)
  where
    two : 0 < 2
    two = omega arith

-- The loop over the precincts, where one of the numbers may be 0.
cut_up-Gives :
    (memory : ℕ → ℕ → ℕ → Block) (coc : CocMarker) (rp : Res) (prw prh : ℕ)
    → HasBlockSize coc
    → AreCut rp.coord.x0 rp.coord.x1 prw rp.npw
    → AreCut rp.coord.y0 rp.coord.y1 prh rp.nph
    → (prw < 16) × (prh < 16)
    → IsBelow (2 ^ 30 + 32) rp.coord
    → (rp.transform_direction ≡ both) ⊎ (rp.num_bands ≡ 1)
    → rp.num_bands ≤ 3
    → Gives Anything (new_precincts memory coc rp (prw, prh) (rp.npw * rp.nph % 2 ^ 32) 0)
unfolding new_precincts
cut_up-Gives memory coc rp prw prh s (inl none_x) y p i d f =
    rw (product) (some-Gives Anything [] tt)
  where
    product : rp.npw * rp.nph % 2 ^ 32 ≡ 0
    product = grind (arith, none_x)
cut_up-Gives memory coc rp prw prh s (inr x) (inl none_y) p i d f =
    rw (product) (some-Gives Anything [] tt)
  where
    product : rp.npw * rp.nph % 2 ^ 32 ≡ 0
    product = grind (arith, none_y)
cut_up-Gives memory coc rp prw prh s (inr x) (inr y) (w, h) i d f =
    new_precincts-Gives coc s rp prw prh
      (record {
        cut_x = x;
        cut_y = y;
        small_w = w;
        small_h = h;
        x_int = omega (arith, i.x1);
        y_int = omega (arith, i.y1);
      })
      d f memory (rp.npw * rp.nph % 2 ^ 32) 0 (omega (arith, mod-le (rp.npw * rp.nph) (2 ^ 32)))

direction_of :
    (coc : CocMarker) (dfs : DfsMarker) (r : ℕ) (above : Option Above)
    → HasShape coc dfs
    → r ≤ coc.style.nl
    → (r ≡ coc.style.nl) ⊎ ((up : Above) × (above ≡ some up))
    → Gives (λ t. IsKnown t above) (get_elem? dfs.type (coc.style.nl - r + 1))
direction_of coc dfs zero above s h (inl top) = absurd (omega (arith, s.least))
direction_of coc dfs zero above s h (inr up) = record {
  value = s.lowest.value;
  is_some =
      subst (λ k. get_elem? dfs.type k ≡ some s.lowest.value) {x = coc.style.nl + 1} (omega arith)
        s.lowest.is_some;
  holds = inr up;
}
direction_of coc dfs (suc r) above s h k =
    let g = s.types (coc.style.nl - suc r + 1) (omega arith) (omega arith) in
    record { value = g.value; is_some = g.is_some; holds = inl g.holds }

precinct_fits : (x p : ℕ) → x < 2 ^ 30 + 32 → p < 16 → x + 2 ^ p < 2 ^ 31
precinct_fits x p h l =
    let two : 0 < 2 = omega arith in
    omega (arith, pow-le-pow_right two {i = p} {j = 15} (omega arith))

subbands_shape :
    (direction r : ℕ)
    → ((direction ≡ both) ⊎ (subbands direction r ≡ 1)) × (subbands direction r ≤ 3)
subbands_shape direction r = elim (Bool-cases (direction == both)) [
  | inl d ↦ (inl (ground (arith, d)), ground arith)
  | inr nd ↦ (inr (rw nd refl), ground arith)
]

module _ (memory : Memory) (tcp : Area) (coc : CocMarker) (dfs : DfsMarker) (s : HasShape coc dfs)
    (below : IsBelow (2 ^ 30) tcp) where
  new_resolution-Gives :
      (r : ℕ) (above : Option Above)
      → r ≤ coc.style.nl
      → (r ≡ coc.style.nl) ⊎ ((up : Above) × (above ≡ some up))
      → Gives Anything (new_resolution memory tcp coc dfs r above)
  unfolding new_resolution
  new_resolution-Gives r above h k =
      bind-Gives _ Anything (direction_of coc dfs r above s h k) λ direction known.
        bind-Gives _ Anything (s.hor (coc.style.nl - r) (omega arith)) λ hor deep.
          bind-Gives _ Anything (s.ver (coc.style.nl - r) (omega arith)) λ ver high.
            bind-Gives _ Anything
              (scaled-Gives (2 ^ hor) (2 ^ ver) tcp (2 ^ 30) (power hor deep) (power ver high) below
                (omega arith))
              λ coord small. bind-Gives _ Anything (s.sizes r h) λ size four_bits.
                bind-Gives _ Anything
                  (precinct_count-Gives coord.x0 coord.x1 size.0
                    (precinct_fits _ _ small.x1 four_bits.0))
                  λ npw x.
                    bind-Gives _ Anything
                      (precinct_count-Gives coord.y0 coord.y1 size.1
                        (precinct_fits _ _ small.y1 four_bits.1))
                      λ nph y.
                        bind-Gives Anything Anything
                          (band_areas-Gives direction tcp coord (band_level coc.style.nl r) _ above
                            _ 0 known small)
                          λ bands _.
                            bind-Gives Anything Anything
                              (cut_up-Gives (memory r) coc _ size.0 size.1 s.blocks x y four_bits
                                small (subbands_shape direction r).0 (subbands_shape direction r).1)
                              λ precs _. some-Gives Anything _ tt

  new_resolutions-Gives :
      (n : ℕ) (above : Option Above)
      → n ≤ coc.style.nl + 1
      → (n ≡ coc.style.nl + 1) ⊎ ((up : Above) × (above ≡ some up))
      → Gives Anything (new_resolutions memory tcp coc dfs n above)
  unfolding new_resolutions
  new_resolutions-Gives zero above h k = some-Gives Anything [] tt
  new_resolutions-Gives (suc r) above h k =
      bind-Gives Anything Anything (new_resolution-Gives r above (omega arith) (at_top k)) λ rp _.
        bind-Gives Anything Anything (new_resolutions-Gives r _ (omega arith) (inr (_, refl)))
          λ lower _. some-Gives Anything _ tt
    where
      at_top :
          (suc r ≡ coc.style.nl + 1) ⊎ ((up : Above) × (above ≡ some up))
          → (r ≡ coc.style.nl) ⊎ ((up : Above) × (above ≡ some up))
      at_top (inl top) = inl (omega arith)
      at_top (inr up) = inr up

-- The structure of a tile component is made: where the edges of the component are below 2 ^ 30 and the
-- markers agree with one another (one level at least, with an entry of the types behind the last level,
-- directions, depths of at most 5, precinct sizes of 4 bits and code blocks of 4 to 1024 columns and rows),
-- no sum leaves an int, no assert fails, and no array is read or written behind its end.
pub parepare-Gives :
    (memory : Memory) (tcp : Area) (coc : CocMarker) (dfs : DfsMarker)
    → HasShape coc dfs
    → IsBelow (2 ^ 30) tcp
    → (res : List Res) × (parepare_tcomp_structure memory tcp coc dfs ≡ some res)
unfolding parepare_tcomp_structure
parepare-Gives memory tcp coc dfs s below =
    let g =
      new_resolutions-Gives memory tcp coc dfs s below (coc.style.nl + 1) none (omega arith)
        (inl refl) in
    (g.value, rw (levels) g.is_some)
  where
    levels : leb 6 coc.style.nl ≡ false
    levels = ground (arith, s.most)
