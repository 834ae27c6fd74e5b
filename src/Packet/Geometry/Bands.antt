-- ===== src/Packet/Geometry/Bands.antt =====
-- packet_parser/j2k_packet.cpp, parepare_tcomp_structure: the edges of the subbands.
use native.Mathlib.Nat.{div-div-eq-div-mul, add-div_right, one-le-pow, mul_comm}
use rtp_decoder_test.Base.{ℕ, suc, ◌+◌, ◌-◌, ◌*◌, ◌/◌, ◌^◌, ◌<◌, ◌≡◌, ◌∙◌, ap, ap₂, sym, arith}
use rtp_decoder_test.Packet.Geometry.{band_edge, uint_ceil}

-- The wrapping difference and sum come out as the rounded quotient.
band_edge-low :
    (nb x : ℕ)
    → x + 2 ^ suc nb < 2 ^ 32
    → band_edge (suc nb) 0 x ≡ (x + 2 ^ suc nb - 1) / 2 ^ suc nb
unfolding band_edge uint_ceil
band_edge-low nb x s =
    let pos = one-le-pow (suc nb) 2 (omega arith) in ap (λ k. k / 2 ^ suc nb) (omega arith)

band_edge-high :
    (nb x : ℕ) → x + 2 ^ suc nb < 2 ^ 32 → band_edge (suc nb) 1 x ≡ (x + 2 ^ nb - 1) / 2 ^ suc nb
unfolding band_edge uint_ceil
band_edge-high nb x s =
    let pos = one-le-pow nb 2 (omega arith) in
    let twice : 2 ^ suc nb ≡ 2 * 2 ^ nb = omega arith in
    let offset : 2 ^ (suc nb - 1) ≡ 2 ^ nb = ap (λ k. 2 ^ k) (omega arith) in
    ap (λ k. k / 2 ^ suc nb) (omega arith)

halves : (y q : ℕ) → 0 < q → (y + q) / (2 * q) + y / (2 * q) ≡ y / q
halves y q h = omega (arith, by_halves (y + q), by_halves y, add-div_right y h)
  where
    by_halves : (k : ℕ) → k / (2 * q) ≡ k / q / 2
    by_halves k = ap (λ d. k / d) (mul_comm 2 q) ∙ sym (div-div-eq-div-mul k q 2)

-- The subbands of a level that is split in both directions: a coordinate of the tile component has as many
-- low-pass and high-pass samples before it as there are samples of the level above.
pub band_edge-split :
    (nb x : ℕ)
    → x + 2 ^ suc nb < 2 ^ 32
    → band_edge (suc nb) 0 x + band_edge (suc nb) 1 x ≡ uint_ceil x (2 ^ nb)
unfolding uint_ceil
band_edge-split nb x s =
    let q = 2 ^ nb in
    let pos : 0 < q = one-le-pow nb 2 (omega arith) in
    let twice : 2 ^ suc nb ≡ 2 * q = omega arith in
    let low : band_edge (suc nb) 0 x ≡ (x + q - 1 + q) / (2 * q) =
      band_edge-low nb x s ∙ ap₂ (λ a b. a / b) (omega arith) twice in
    let high : band_edge (suc nb) 1 x ≡ (x + q - 1) / (2 * q) =
      band_edge-high nb x s ∙ ap (λ b. (x + q - 1) / b) twice in
    ap₂ (λ a b. a + b) low high ∙ halves (x + q - 1) q pos ∙ ap (λ a. a / q) (omega arith)
