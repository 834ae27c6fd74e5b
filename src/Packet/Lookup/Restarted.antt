-- ===== src/Packet/Lookup/Restarted.antt =====
-- packet_parser/tile_handler.hpp, restart: the precincts that the next frame starts from.
use mathlib.Core.Path.{subst}
use native.Mathlib.Nat.{mod-le}
use rtp_decoder_test.Base.{
  ℕ, zero, suc, ◌*◌, ◌^◌, ◌≤◌, ◌≡◌, refl, inl, inr, ◌||◌, some, List, [], ◌∷◌, ◌==◌, length,
  Option-cases, Bool-cases, arith,
}
use rtp_decoder_test.Codestream.{Codestream}
use rtp_decoder_test.Codestream.Place.{IsValid}
use rtp_decoder_test.Codestream.Total.{Returns, Any}
use rtp_decoder_test.Packet.Read.{Cell, nb_code_blocks, band_headers}
use rtp_decoder_test.Packet.Returns.{HasBlocks, band_headers-Returns}
use rtp_decoder_test.Packet.Tree.{tag_tree_size}
use rtp_decoder_test.Packet.Structure.{Prec}
use rtp_decoder_test.Packet.Structure.Trees.{size-covers}
use rtp_decoder_test.Packet.Lookup.{
  clear_leaves, clear_block, before, clear_cells, clear_bands, clear_precinct,
}

-- A code block whose leaves have no value and have not been seen, and which has no passes and no length.
pub record IsClear (c : Cell) : Type 0 where
  pub incl_val : c.incl_node.val ≡ 0
  pub incl_vis : c.incl_node.vis ≡ 0
  pub zbp_val : c.zbp_node.val ≡ 0
  pub zbp_vis : c.zbp_node.vis ≡ 0
  pub total : c.block.total ≡ 0
  pub npasses : c.block.npasses ≡ 0
  pub first_length : c.block.pass_length_0 ≡ 0
  pub second_length : c.block.pass_length_1 ≡ 0

-- The first `n` code blocks are there, and are clear.
abbrev pub AreClear : ℕ → List Cell → Type 0
AreClear zero cells = Unit {0}
AreClear (suc n) [] = ⊥
AreClear (suc n) (c ∷ cells) = IsClear c × AreClear n cells

abbrev pub AllClear : ℕ → List (List Cell) → Type 0
AllClear n [] = Unit {0}
AllClear n (band ∷ bands) = AreClear n band × AllClear n bands

clear_cells-AreClear :
    (siz n : ℕ) (cells out : List Cell)
    → n ≤ siz
    → clear_cells siz n cells ≡ some out
    → AreClear n out × (n ≤ length out)
unfolding clear_cells
clear_cells-AreClear siz zero [] out h e = (tt, omega arith)
clear_cells-AreClear siz (suc n) [] out h e = cc
clear_cells-AreClear siz zero (c ∷ cells) out h e = (tt, omega arith)
clear_cells-AreClear zero (suc n) (c ∷ cells) out h e = absurd (omega arith)
clear_cells-AreClear (suc siz) (suc n) (c ∷ cells) out h e =
    elim (Option-cases (clear_cells siz n cells)) [
      | inl missing ↦ (let f = rw (missing, before) at e in cc)
      | inr (rest, r) ↦
          let (clear, enough) = clear_cells-AreClear siz n cells rest (omega arith) r in
          let made : record (clear_leaves c) { block = clear_block c.block } ∷ rest ≡ out =
            (let f = rw (r, before) at e in ground (arith, f)) in
          subst (λ k. AreClear (suc n) k × (suc n ≤ length k)) made
            (
              (
                record {
                  incl_val = refl;
                  incl_vis = refl;
                  zbp_val = refl;
                  zbp_vis = refl;
                  total = refl;
                  npasses = refl;
                  first_length = refl;
                  second_length = refl;
                },
                clear,
              ),
              omega arith,
            )
    ]

clear_bands-AllClear :
    (siz n : ℕ) (bands out : List (List Cell))
    → n ≤ siz
    → clear_bands siz n bands ≡ some out
    → AllClear n out × HasBlocks n out
unfolding clear_bands
clear_bands-AllClear siz n [] out h e =
    let made : [] ≡ out = ground (arith, e) in
    subst (λ k. AllClear n k × HasBlocks n k) made (tt, tt)
clear_bands-AllClear siz n (band ∷ bands) out h e = elim (Option-cases (clear_cells siz n band)) [
  | inl missing ↦ (let f = rw (missing, clear_bands) at e in cc)
  | inr (cleared, c) ↦ elim (Option-cases (clear_bands siz n bands)) [
    | inl missing ↦ (let f = rw (c, missing, clear_bands) at e in cc)
    | inr (rest, r) ↦
        let (clear, enough) = clear_cells-AreClear siz n band cleared h c in
        let (clears, blocks) = clear_bands-AllClear siz n bands rest h r in
        let made : cleared ∷ rest ≡ out =
          (let f = rw (c, r, clear_bands) at e in ground (arith, f)) in
        subst (λ k. AllClear n k × HasBlocks n k) made ((clear, clears), (enough, blocks))
  ]
]

-- What restart leaves of a precinct.
pub record IsRestarted (old new : Prec) (s : Codestream) (cbs : ℕ) : Type 0 where
  pub same_place : new.coord ≡ old.coord
  pub same_blocks : nb_code_blocks new.packet ≡ nb_code_blocks old.packet
  pub clear : AllClear (nb_code_blocks new.packet) new.packet.bands
  pub reads : Returns Any (band_headers cbs (nb_code_blocks new.packet) new.packet.bands s)

-- A precinct after a restart that ends without a fault: it has its rectangle and its number of code blocks,
-- in every subband that many code blocks are there, with unseen leaves and without passes or lengths, and
-- for every style and on every valid stream the loops of the next packet header over it return without a
-- fault.
pub clear_precinct-IsRestarted :
    (old new : Prec) (s : Codestream) (cbs : ℕ)
    → clear_precinct old ≡ some new
    → IsValid s
    → IsRestarted old new s cbs
unfolding clear_precinct
clear_precinct-IsRestarted old new s cbs e v =
    elim (Option-cases (tag_tree_size old.packet.ncbw old.packet.ncbh)) [
      | inl missing ↦ (let f = rw (missing, clear_precinct) at e in cc)
      | inr (siz, z) ↦ elim (Bool-cases (old.packet.ncbw == 0 || old.packet.ncbh == 0)) [
        | inl empty ↦ (let f = rw (z, empty, clear_precinct) at e in cc)
        | inr full ↦
            elim (Option-cases (clear_bands siz (nb_code_blocks old.packet) old.packet.bands)) [
              | inl missing ↦ (let f = rw (z, full, missing, clear_precinct) at e in cc)
              | inr (bands, b) ↦
                  let f = rw (z, full, b, clear_precinct) at e in
                  let made : record old { packet = record (old.packet) { bands = bands } } ≡ new =
                    ground (arith, f) in
                  subst (λ p. IsRestarted old p s cbs) made (restarted siz bands z b)
            ]
      ]
    ]
  where
    restarted :
        (siz : ℕ) (bands : List (List Cell))
        → tag_tree_size old.packet.ncbw old.packet.ncbh ≡ some siz
        → clear_bands siz (nb_code_blocks old.packet) old.packet.bands ≡ some bands
        → IsRestarted old (record old { packet = record (old.packet) { bands = bands } }) s cbs
    restarted siz bands z b =
        let w = old.packet.ncbw in
        let h = old.packet.ncbh in
        let few : nb_code_blocks old.packet ≤ siz =
          omega (arith, mod-le (w * h) (2 ^ 32), size-covers w h siz z) in
        let (clear, blocks) =
          clear_bands-AllClear siz (nb_code_blocks old.packet) old.packet.bands bands few b in
        record {
          same_place = refl;
          same_blocks = refl;
          clear = clear;
          reads = band_headers-Returns cbs (record (old.packet) { bands = bands }) s blocks v;
        }
