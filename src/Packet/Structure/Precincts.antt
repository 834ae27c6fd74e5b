-- ===== src/Packet/Structure/Precincts.antt =====
-- packet_parser/j2k_packet.cpp, parepare_tcomp_structure:
-- the precincts of a resolution.
use native.Mathlib.Nat.{mod-lt, div-lt_iff_lt-mul, pow-le-pow_right, mul_comm}
use rtp_decoder_test.Base.{
  ℕ, zero, suc, ◌+◌, ◌*◌, ◌/◌, ◌%◌, ◌^◌, ◌≤◌, ◌<◌, ◌≡◌, ◌⊎◌, refl, inl, inr, [], ltb, Bool-cases,
  ltb→lt, arith,
}
use rtp_decoder_test.Header.Coc.{CocMarker}
use rtp_decoder_test.Packet.Block.{Block}
use rtp_decoder_test.Packet.Geometry.{
  both, precinct_count, precinct_low, precinct_high, precinct_area,
}
use rtp_decoder_test.Packet.Geometry.Cuts.{IsCut, precincts-IsCut}
use rtp_decoder_test.Packet.Structure.{Res, new_precinct, new_precincts, bare_precinct}
use rtp_decoder_test.Packet.Structure.Gives.{Gives, Anything, some-Gives, bind-Gives}
use rtp_decoder_test.Packet.Structure.Parts.{IsNarrow, HasBlockSize, new_bands-Gives}

-- The precincts of a direction, if there are any.
abbrev pub AreCut : ℕ → ℕ → ℕ → ℕ → Type 0
AreCut x0 x1 p n = (n ≡ 0) ⊎ IsCut (precinct_low x0 p) (precinct_high x0 x1 p) x0 x1 (2 ^ p) n

pub precinct_count-Gives :
    (x0 x1 p : ℕ) → x1 + 2 ^ p < 2 ^ 31 → Gives (AreCut x0 x1 p) (precinct_count x0 x1 p)
unfolding precinct_count
precinct_count-Gives x0 x1 p h = elim (Bool-cases (ltb x0 x1)) [
  | inl some_part ↦
      let (n, e, cut) = precincts-IsCut x0 x1 p (ltb→lt x0 x1 some_part) h in
      record { value = n; is_some = e; holds = inr cut }
  | inr nothing ↦ record { value = 0; is_some = rw nothing refl; holds = inl refl }
]

precinct_high-le : (x0 x1 p k : ℕ) → precinct_high x0 x1 p k ≤ x1
unfolding precinct_high
precinct_high-le x0 x1 p k = ground arith

-- What the loop over the precincts of a resolution is run with.
pub record IsCutUp (rp : Res) (prw prh : ℕ) : Type 0 where
  pub cut_x :
      IsCut
        (precinct_low rp.coord.x0 prw)
        (precinct_high rp.coord.x0 rp.coord.x1 prw)
        rp.coord.x0
        rp.coord.x1
        (2 ^ prw)
        rp.npw
  pub cut_y :
      IsCut
        (precinct_low rp.coord.y0 prh)
        (precinct_high rp.coord.y0 rp.coord.y1 prh)
        rp.coord.y0
        rp.coord.y1
        (2 ^ prh)
        rp.nph
  pub small_w : prw < 16
  pub small_h : prh < 16
  pub x_int : rp.coord.x1 < 2 ^ 31
  pub y_int : rp.coord.y1 < 2 ^ 31

precinct-IsNarrow :
    (rp : Res) (prw prh np : ℕ)
    → IsCutUp rp prw prh
    → np < rp.npw * rp.nph
    → IsNarrow (precinct_area rp.coord rp.npw prw prh np)
unfolding precinct_area
precinct-IsNarrow rp prw prh np c h =
    let pos : 0 < rp.npw = c.cut_x.not_none in
    let column : np % rp.npw < rp.npw = mod-lt np pos in
    let row : np / rp.npw < rp.nph = (div-lt_iff_lt-mul pos).1 (rw (mul_comm rp.nph rp.npw) h) in
    let two : 0 < 2 = omega arith in
    let w = pow-le-pow_right two {i = prw} {j = 15} (omega (arith, c.small_w)) in
    let v = pow-le-pow_right two {i = prh} {j = 15} (omega (arith, c.small_h)) in
    let inside_x = precinct_high-le rp.coord.x0 rp.coord.x1 prw (np % rp.npw) in
    let inside_y = precinct_high-le rp.coord.y0 rp.coord.y1 prh (np / rp.npw) in
    record {
      wide = omega (arith, c.cut_x.narrow _ column);
      high = omega (arith, c.cut_y.narrow _ row);
      x0_int = omega (arith, c.cut_x.not_empty _ column, c.x_int);
      y0_int = omega (arith, c.cut_y.not_empty _ row, c.y_int);
      x1_int = omega (arith, c.x_int);
      y1_int = omega (arith, c.y_int);
    }

module _ (coc : CocMarker) (sizes : HasBlockSize coc) (rp : Res) (prw prh : ℕ)
    (c : IsCutUp rp prw prh) (shape : (rp.transform_direction ≡ both) ⊎ (rp.num_bands ≡ 1))
    (few : rp.num_bands ≤ 3) where
  pub new_precincts-Gives :
      (memory : ℕ → ℕ → ℕ → Block) (n np : ℕ)
      → np + n ≤ rp.npw * rp.nph
      → Gives Anything (new_precincts memory coc rp (prw, prh) n np)
  unfolding new_precincts new_precinct
  new_precincts-Gives memory zero np h = some-Gives Anything [] tt
  new_precincts-Gives memory (suc n) np h =
      bind-Gives Anything Anything
        (new_bands-Gives coc sizes rp.transform_direction (memory np) rp.num_bands 0
          (bare_precinct coc rp (prw, prh) np) (precinct-IsNarrow rp prw prh np c (omega arith))
          shape (omega (arith, few)))
        λ prec _.
          bind-Gives Anything Anything (new_precincts-Gives memory n (np + 1) (omega arith))
            λ rest _. some-Gives Anything _ tt
