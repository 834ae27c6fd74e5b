-- ===== src/Frame/Drained.antt =====
-- frame_handler.hpp: the end of a frame gives the slabs back to the receiver's ring.
use rtp_decoder_test.Base.{
  ℕ, ◌+◌, ◌≡◌, refl, ap, true, not, ◌||◌, Bool-cases, inl, inr, List, [], arith, get_or, ◌/◌,
}
use rtp_decoder_test.Frame.State.{Parser, Packet, FrameHandler, init, release_held_slabs, restart}
use rtp_decoder_test.Frame.Handlers.{
  on_gap, on_slab_cap, skipped_end, skip_body, end_of_frame, pull_data,
}
use rtp_decoder_test.Frame.Delivery.{run}
use rtp_decoder_test.Frame.Slabs.{count, released, own, arrived, pull_data-owned, run-owned-init}

module _ (P : Parser) where
  skip_body-drained :
      (p : Packet) (h : FrameHandler P) → p.marker ≡ true → (skip_body P p h).held_slabs ≡ []
  unfolding skip_body skipped_end release_held_slabs restart
  skip_body-drained p h m = rw (m, skip_body) refl

  end_of_frame-drained : (h : FrameHandler P) → (end_of_frame P h).held_slabs ≡ []
  unfolding end_of_frame release_held_slabs restart
  end_of_frame-drained h = refl

  -- The last packet of a frame, without a main header.
  abbrev pub IsLast : Packet → Type 0
  IsLast p = (p.marker ≡ true) × (get_or p.payload 0 0 / 64 ≡ 0)

  pull_data-drained :
      (p : Packet) (h : FrameHandler P) → IsLast p → (pull_data P p h).held_slabs ≡ []
  unfolding pull_data
  pull_data-drained p h (m, body) =
      let h' = on_slab_cap P (on_gap P p h) in
      elim (Bool-cases (not h'.is_passed_header || h'.is_parsing_failure)) [
        | inl skipped ↦ rw (body, pull_data) (rw skipped (skip_body-drained p h' m))
        | inr taken ↦ rw (body, pull_data) (rw taken (rw m (end_of_frame-drained _)))
      ]

  -- When the last packet of a frame has come (the RTP marker is set, and the packet is not of a main
  -- header), the handler holds no slab: every slab that came with it or with a packet before it, in this
  -- frame or in earlier ones, has been given back as often as it came. This holds whatever came before, and
  -- on every path: a frame that is skipped, has failed, or is flushed.
  pub all-released :
      (k : ℕ) (ps : List Packet) (p : Packet) (t : P.State)
      → IsLast p
      → released k (pull_data P p (run P ps (init P t))).calls ≡ own k P p + arrived k P ps
  unfolding count
  all-released k ps p t l =
      let before = run P ps (init P t) in
      omega (
        arith,
        ap (count k) (pull_data-drained p before l),
        pull_data-owned k P p before,
        run-owned-init k P ps t,
      )
