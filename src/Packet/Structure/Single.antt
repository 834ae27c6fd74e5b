-- ===== src/Packet/Structure/Single.antt =====
-- packet_parser/j2k_packet.cpp, parepare_tcomp_structure and parse_packet_header: the code blocks of a
-- precinct of one subband.
use mathlib.Core.Path.{subst}
use native.Mathlib.Nat.{le_of_eq}
use rtp_decoder_test.Base.{
  ap, sym, true, ℕ, zero, suc, ◌+◌, ◌*◌, ◌%◌, ◌^◌, ◌≡◌, refl, inl, inr, Option, none, some, List,
  [], length, Bool-cases, arith, ◌==◌, ◌||◌,
}
use rtp_decoder_test.Codestream.{Codestream}
use rtp_decoder_test.Codestream.Place.{IsValid}
use rtp_decoder_test.Codestream.Total.{Returns, Any}
use rtp_decoder_test.Header.Coc.{CocMarker}
use rtp_decoder_test.Tile.Grid.{Area}
use rtp_decoder_test.Packet.Block.{Block}
use rtp_decoder_test.Packet.Read.{nb_code_blocks, band_headers}
use rtp_decoder_test.Packet.Returns.{band_headers-Returns, HasBlocks}
use rtp_decoder_test.Packet.Tree.{TreeNode}
use rtp_decoder_test.Packet.Geometry.{◌>>=◌}
use rtp_decoder_test.Packet.Structure.{
  Res, Prec, new_tree, leaf, new_cells, new_band, new_bands, new_precinct, bare_precinct,
}

-- What holds of a result, if there is one.
record Ensures {ℓ κ} {A : Type ℓ} (P : A → Type κ) (o : Option A) : Type (ℓ ⊔ κ) where
  pub holds : (a : A) → o ≡ some a → P a

some-Ensures {ℓ κ} : {A : Type ℓ} {P : A → Type κ} (a : A) → P a → Ensures P (some a)
some-Ensures {P = P} a p = record { holds = λ b e. subst P (ground (arith, e)) p }

bind-Ensures {ℓ κ μ} :
    {A : Type ℓ} {B : Type κ} {P : B → Type μ} (m : Option A) (f : A → Option B)
    → ((a : A) → m ≡ some a → Ensures P (f a))
    → Ensures P (m >>= f)
bind-Ensures none f h = record { holds = λ b e. cc }
bind-Ensures (some a) f h = h a refl

length-new_cells :
    (memory : ℕ → Block) (incl zbp : List TreeNode) (n cb : ℕ)
    → Ensures (λ cells. length cells ≡ n) (new_cells memory incl zbp n cb)
unfolding new_cells
length-new_cells memory incl zbp zero cb = some-Ensures [] refl
length-new_cells memory incl zbp (suc n) cb = bind-Ensures (leaf incl cb) _ λ i ei.
    bind-Ensures (leaf zbp cb) _ λ z ez.
      bind-Ensures (new_cells memory incl zbp n (cb + 1)) _ λ rest er.
        some-Ensures _ (ap suc ((length-new_cells memory incl zbp n (cb + 1)).holds rest er))

-- A band has as many code blocks as it has columns times rows.
length-new_band :
    (memory : ℕ → Block) (cbw cbh : ℕ) (part : Area) (ncbw ncbh : ℕ)
    → Ensures (λ r. length r.0 ≡ ncbw * ncbh % 2 ^ 32) (new_band memory cbw cbh part ncbw ncbh)
unfolding new_band
length-new_band memory cbw cbh part ncbw ncbh = elim (Bool-cases (ncbw == 0 || ncbh == 0)) [
  | inl empty ↦ rw empty (some-Ensures _ (sym (no_blocks ncbw ncbh empty)))
  | inr full ↦ rw full (
      bind-Ensures (new_tree ncbw ncbh) _ λ incl ei. bind-Ensures (new_tree ncbw ncbh) _ λ zbp ez.
        bind-Ensures (new_cells memory incl zbp (ncbw * ncbh % 2 ^ 32) 0) _ λ cells er.
          some-Ensures _
            ((length-new_cells memory incl zbp (ncbw * ncbh % 2 ^ 32) 0).holds cells er))
]
  where
    no_blocks : (w h : ℕ) → (w == 0 || h == 0) ≡ true → w * h % 2 ^ 32 ≡ 0
    no_blocks w h e = grind arith

new_bands-one :
    (memory : ℕ → ℕ → Block) (coc : CocMarker) (direction : ℕ) (prec : Prec)
    → prec.packet.bands ≡ []
    → Ensures
        (λ p. HasBlocks (nb_code_blocks p.packet) p.packet.bands)
        (new_bands memory coc direction 1 0 prec)
unfolding new_bands
new_bands-one memory coc direction prec e = bind-Ensures (new_band _ _ _ _ _ _) _ λ band eb.
    some-Ensures _ (rw e (le_of_eq (sym ((length-new_band _ _ _ _ _ _).holds band eb)), tt))

-- The precincts of a resolution with one subband, as they are made: the header of a packet is read, or
-- refused with EXIT_FAILURE, for all code blocks of the precinct without a fault, on every valid stream.
pub single_precinct-Returns :
    (memory : ℕ → ℕ → Block) (coc : CocMarker) (rp : Res) (size : ℕ × ℕ) (np : ℕ) (prec : Prec)
    (s : Codestream)
    → rp.num_bands ≡ 1
    → new_precinct memory coc rp size np ≡ some prec
    → IsValid s
    → Returns Any (band_headers coc.style.cbs (nb_code_blocks prec.packet) prec.packet.bands s)
unfolding new_precinct
single_precinct-Returns memory coc rp size np prec s one e v =
    band_headers-Returns coc.style.cbs prec.packet s
      ((new_bands-one memory coc rp.transform_direction (bare_precinct coc rp size np) refl).holds
        prec
        (subst
          (λ n.
            new_bands memory coc rp.transform_direction n 0 (bare_precinct coc rp size np)
            ≡ some prec)
          one e))
      v
