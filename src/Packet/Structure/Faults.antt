-- ===== src/Packet/Structure/Faults.antt =====
-- packet_parser/j2k_packet.cpp, parepare_tcomp_structure: the type of the lowest resolution.
use mathlib.Core.Path.{subst}
use rtp_decoder_test.Base.{
  ℕ, zero, suc, ◌+◌, ◌-◌, ◌≤◌, ◌≡◌, refl, inl, inr, Option, none, some, leb, if◌then◌else◌, length,
  get_elem?-none, Bool-cases, arith,
}
use rtp_decoder_test.Header.Coc.{CocMarker}
use rtp_decoder_test.Header.Dfs.{DfsMarker}
use rtp_decoder_test.Tile.Grid.{Area}
use rtp_decoder_test.Packet.Geometry.{Above, ◌>>=◌}
use rtp_decoder_test.Packet.Structure.{
  Memory, new_resolution, new_resolutions, parepare_tcomp_structure,
}

new_resolution-lowest :
    (memory : Memory) (tcp : Area) (coc : CocMarker) (dfs : DfsMarker) (above : Option Above)
    → length dfs.type ≤ coc.style.nl + 1
    → new_resolution memory tcp coc dfs 0 above ≡ none
unfolding new_resolution
new_resolution-lowest memory tcp coc dfs above h =
    rw (get_elem?-none dfs.type (coc.style.nl - 0 + 1) (omega arith), ◌>>=◌) refl

>>=-none {ℓ κ} :
    {A : Type ℓ} {B : Type κ} (m : Option A) (f : A → Option B)
    → ((a : A) → f a ≡ none)
    → (m >>= f) ≡ none
>>=-none none f h = refl
>>=-none (some a) f h = h a

new_resolutions-lowest :
    (memory : Memory) (tcp : Area) (coc : CocMarker) (dfs : DfsMarker)
    → length dfs.type ≤ coc.style.nl + 1
    → (n : ℕ) (above : Option Above) → new_resolutions memory tcp coc dfs (suc n) above ≡ none
unfolding new_resolutions
new_resolutions-lowest memory tcp coc dfs h zero above =
    rw (new_resolution-lowest memory tcp coc dfs above h, ◌>>=◌) refl
new_resolutions-lowest memory tcp coc dfs h (suc n) above =
    >>=-none (new_resolution memory tcp coc dfs (suc n) above) _ λ rp.
      let up : Option Above =
        some (record { direction = rp.transform_direction; coord = rp.coord }) in
      rw (new_resolutions-lowest memory tcp coc dfs h n up, ◌>>=◌) refl

-- The type of a resolution is read at an index one above the levels for the lowest one: where the array of
-- types has no entry behind that of the last level, as with its 6 entries and 5 levels, the structure of
-- every tile component is a fault.
pub parepare-behind_types :
    (memory : Memory) (tcp : Area) (coc : CocMarker) (dfs : DfsMarker)
    → length dfs.type ≤ coc.style.nl + 1
    → parepare_tcomp_structure memory tcp coc dfs ≡ none
unfolding parepare_tcomp_structure
parepare-behind_types memory tcp coc dfs h = elim (Bool-cases (leb 6 coc.style.nl)) [
  | inl large ↦ rw large refl
  | inr small ↦
      subst
        (λ n.
          (if leb 6 coc.style.nl then none else new_resolutions memory tcp coc dfs n none) ≡ none)
        {x = suc coc.style.nl} (omega arith)
        (rw small (new_resolutions-lowest memory tcp coc dfs h coc.style.nl none))
]
