-- ===== src/Frame/Cases.antt =====
-- The ways through the composed handlers, as rules for a property of their results.
use rtp_decoder_test.Base.{
  ℕ, Bool, false, Bool-cases, Option-cases, inl, inr, Option, none, some, ◌==◌, if◌then◌else◌,
}
use rtp_decoder_test.Signature.{geometry_signature}
use rtp_decoder_test.Frame.Calls.{Relatch}
use rtp_decoder_test.Frame.State.{Parser, Packet, FrameHandler}
use rtp_decoder_test.Frame.Handlers.{
  fail_parse, relatch_reason, latch, reuse, complete_header, j2k_payload,
}

module _ (P : Parser) where
  -- A handler with another latched signature and tile handler.
  abbrev pub with_stream : ℕ → P.State → FrameHandler P → FrameHandler P
  with_stream g t h = record h { geom_sig = g; tile_hndr = t }

  pub complete_header_cases {ℓ} :
      (Q : Bool × FrameHandler P → Type ℓ) (p : Packet) (h : FrameHandler P)
      → Q (false, fail_parse P h)
      → ((sod g : ℕ) (t : P.State) → Q (reuse P sod (with_stream g t h)))
      → ((sig g : ℕ) (why : Option Relatch) (t : P.State) → Q (latch P sig why (with_stream g t h)))
      → Q (complete_header P p h)
  unfolding complete_header
  complete_header_cases Q p h a b c = elim (Bool-cases (P.is_ready h.tile_hndr)) [
    | inr idle ↦ rw idle (c sig h.geom_sig none h.tile_hndr)
    | inl ready ↦ rw ready (elim (Bool-cases (sig == 0)) [
      | inl bad ↦ rw bad a
      | inr good ↦ rw good (elim (Option-cases (relatch_reason P sig adopted)) [
        | inl e ↦ rw e (b sod _ h.tile_hndr)
        | inr (w, e) ↦ rw e (elim (Bool-cases (P.is_ready (P.invalidate h.tile_hndr))) [
          | inl still ↦ rw still (b sod _ _)
          | inr gone ↦ rw gone (c sig _ (some w) _)
        ])
      ])
    ])
  ]
    where
      sig : ℕ
      sig = (geometry_signature (j2k_payload P p)).0

      sod : ℕ
      sod = (geometry_signature (j2k_payload P p)).1

      adopted : FrameHandler P
      adopted = with_stream (if h.geom_sig == 0 then sig else h.geom_sig) h.tile_hndr h
