-- ===== src/Frame/Reports.antt =====
-- frame_handler.hpp: what the end of a frame reports, and which header the stream is latched to.
use rtp_decoder_test.Base.{
  ℕ, ◌+◌, ◌%◌, ◌^◌, ◌≡◌, ◌≢◌, ◌⊎◌, refl, inl, inr, Bool-cases, Option-cases, true, false, Option,
  none, some, ◌∷◌, arith, ◌==◌, if◌then◌else◌,
}
use rtp_decoder_test.Codestream
use rtp_decoder_test.Codestream.{Codestream}
use rtp_decoder_test.Signature.{geometry_signature}
use rtp_decoder_test.Frame.Calls.{Relatch, frame_ready}
use rtp_decoder_test.Frame.State.{
  Parser, Packet, FrameHandler, end_frame_streak, release_held_slabs, restart, release_all,
}
use rtp_decoder_test.Frame.Handlers.{
  relatch_reason, tell_relatch, latch, reuse, complete_header, flush_frame, end_of_frame, is_intact,
  j2k_payload,
}

module _ (P : Parser) where
  -- A frame that is intact up to its last packet and whose last precincts then fail to parse is
  -- reported ready and intact, and no abort is fired for it. The same frame counts as truncated and,
  -- as the next one in a row, towards the number of failures that latches the stream anew.
  pub end_of_frame-flush_fails :
      (h : FrameHandler P)
      → is_intact P h ≡ true
      → (P.flush h.tile_hndr h.cs).0 ≡ true
      → ((end_of_frame P h).calls ≡ release_all h.held_slabs (frame_ready true ∷ h.calls))
        × ((end_of_frame P h).trunc_frames ≡ h.trunc_frames + 1)
        × ((end_of_frame P h).parse_fail_streak ≡ (h.parse_fail_streak + 1) % 2 ^ 32)
  unfolding end_of_frame flush_frame end_frame_streak release_held_slabs restart
  end_of_frame-flush_fails h i f = ground arith

  -- The signature of the complete main header that `p` carries.
  abbrev pub signature : Packet → ℕ
  signature p = (geometry_signature (j2k_payload P p)).0

  tell_relatch-geom_sig :
      (why : Option Relatch) (h : FrameHandler P) → (tell_relatch P why h).geom_sig ≡ h.geom_sig
  unfolding tell_relatch
  tell_relatch-geom_sig none h = refl
  tell_relatch-geom_sig (some why) h = refl

  -- The structures that a tile handler makes from the main header at the start of a chain.
  pub record IsBuilt (t : P.State) (before : Codestream) (r : FrameHandler P) : Type 0 where
    pub found : (P.parse_main_header t (Codestream.reset 0 before)).0 ≢ 0
    pub created :
        let (sod, t', cs) = P.parse_main_header t (Codestream.reset 0 before) in
        P.create t' cs ≡ (true, r.tile_hndr)
    pub start : r.start_sod ≡ (P.parse_main_header t (Codestream.reset 0 before)).0
    pub behind : r.cs ≡ (P.parse_main_header t (Codestream.reset 0 before)).2

  -- The structures that were there, of a stream that has the signature `sig` or none yet.
  abbrev pub IsKept : ℕ → FrameHandler P → FrameHandler P → Type 0
  IsKept sig h r =
      (P.is_ready h.tile_hndr ≡ true)
      × (r.tile_hndr ≡ h.tile_hndr)
      × ((h.geom_sig ≡ sig) ⊎ (h.geom_sig ≡ 0))

  -- The tile handler that parses a header: an older latch is dropped first.
  abbrev pub unlatched : FrameHandler P → P.State
  unlatched h = if P.is_ready h.tile_hndr then P.invalidate h.tile_hndr else h.tile_hndr

  abbrev pub IsLatched : ℕ → FrameHandler P → FrameHandler P → Type 0
  IsLatched sig h r = (r.geom_sig ≡ sig) × (IsKept sig h r ⊎ IsBuilt (unlatched h) h.cs r)

  latch-geom_sig :
      (sig : ℕ) (why : Option Relatch) (h : FrameHandler P)
      → (latch P sig why h).0 ≡ true
      → (latch P sig why h).1.geom_sig ≡ sig
  unfolding latch tell_relatch
  latch-geom_sig sig why h g = ground arith

  latch-IsBuilt :
      (sig : ℕ) (why : Option Relatch) (h : FrameHandler P)
      → (latch P sig why h).0 ≡ true
      → ((latch P sig why h).1.geom_sig ≡ sig) × IsBuilt h.tile_hndr h.cs (latch P sig why h).1
  unfolding latch tell_relatch
  latch-IsBuilt sig none h g = (
    latch-geom_sig sig none h g,
    record {
      found = ground arith;
      created = ground arith;
      start = ground arith;
      behind = ground arith;
    },
  )
  latch-IsBuilt sig (some why) h g = (
    latch-geom_sig sig (some why) h g,
    record {
      found = ground arith;
      created = ground arith;
      start = ground arith;
      behind = ground arith;
    },
  )

  -- A tile handler that is told to invalidate is not ready. Then behind every complete main header
  -- that the handler goes on with, the stream has the signature of that very header, and decodes
  -- with structures that a parse of this header has just made (on a tile handler that was told to
  -- invalidate an older latch), or with those that were there and that belong to the same signature
  -- or, where the stream has no signature yet, are taken for those of this one.
  pub complete_header-IsLatched :
      ((t : P.State) → P.is_ready (P.invalidate t) ≡ false)
      → (p : Packet) (h : FrameHandler P) → (complete_header P p h).0 ≡ true
      → IsLatched (signature p) h (complete_header P p h).1
  unfolding complete_header relatch_reason reuse
  complete_header-IsLatched unready p h = elim (Bool-cases (P.is_ready h.tile_hndr)) [
    | inr idle ↦ rw idle (λ g. let (s, b) = latch-IsBuilt sig none h g in (s, inr b))
    | inl ready ↦ rw ready (elim (Bool-cases (sig == 0)) [
      | inl bad ↦ rw bad (λ g. absurd (ground arith))
      | inr good ↦ rw good (elim (Option-cases (relatch_reason P sig adopted)) [
        | inl same ↦ rw same (λ g. (ground arith, inl (refl, refl, ground arith)))
        | inr (why, changed) ↦
            rw (changed, unready h.tile_hndr)
              (λ g.
                let (s, b) =
                  latch-IsBuilt sig (some why)
                    (record adopted { tile_hndr = P.invalidate h.tile_hndr }) g in
                (s, inr b))
      ])
    ])
  ]
    where
      sig : ℕ
      sig = signature p

      adopted : FrameHandler P
      adopted = record h { geom_sig = if h.geom_sig == 0 then sig else h.geom_sig }
