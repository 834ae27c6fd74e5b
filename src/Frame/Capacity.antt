-- ===== src/Frame/Capacity.antt =====
-- frame_handler.hpp: how many slabs of the ring a frame can hold.
use rtp_decoder_test.Base.{
  ℕ, ◌+◌, ◌≡◌, ◌≤◌, ◌<◌, refl, false, List, [], ◌∷◌, arith, get_or, ◌/◌, length, length-append,
}
use rtp_decoder_test.Frame.State.{Parser, Packet, FrameHandler, init, release_held_slabs, restart}
use rtp_decoder_test.Frame.Cases.{complete_header_cases}
use rtp_decoder_test.Frame.Delivery.{run}
use rtp_decoder_test.Frame.Handlers.{
  on_gap, on_slab_cap, skip_body, skipped_end, take_in, fail_parse, on_missed_eoc, latch,
  split_header, reuse, complete_header, main_packet, parse_on, offer_point, on_signal, body_packet,
  end_of_frame, pull_data,
}

module _ (P : Parser) where
  -- The slabs that the frame in flight holds.
  abbrev pub held : FrameHandler P → ℕ
  held h = length h.held_slabs

  capped :
      (p : Packet) (h : FrameHandler P) → held h ≤ 3072 → held (on_slab_cap P (on_gap P p h)) < 3072
  unfolding on_slab_cap on_gap
  capped p h b = ground arith

  skip_body-held : (p : Packet) (h : FrameHandler P) → held (skip_body P p h) ≤ held h
  unfolding skip_body skipped_end
  skip_body-held p h = ground arith

  on_missed_eoc-held : (h : FrameHandler P) → held (on_missed_eoc P h) ≡ 0
  unfolding on_missed_eoc
  on_missed_eoc-held h = ground arith

  take_in-held : (p : Packet) (h : FrameHandler P) → held (take_in P p h) ≡ held h + 1
  unfolding take_in
  take_in-held p h = length-append h.held_slabs (p.slab_idx ∷ [])

  complete_header-held : (p : Packet) (h : FrameHandler P) → held (complete_header P p h).1 ≡ held h
  unfolding fail_parse latch reuse
  complete_header-held p h =
      complete_header_cases P (λ r. held r.1 ≡ held h) p h (ground arith) (λ sod g t. refl)
        (λ sig g why t. ground arith)

  main_packet-held : (mh : ℕ) (p : Packet) (h : FrameHandler P) → held (main_packet P mh p h).1 ≡ 1
  unfolding main_packet split_header reuse
  main_packet-held mh p h =
      let start = record (on_missed_eoc P h) {
        is_parsing_failure = false;
        frame_parse_failed = false;
      } in
      ground (
        arith,
        on_missed_eoc-held h,
        take_in-held p start,
        complete_header-held p (take_in P p start),
      )

  body_packet-held : (p : Packet) (h : FrameHandler P) → held (body_packet P p h) ≡ held h + 1
  unfolding body_packet on_signal offer_point parse_on
  body_packet-held p h = ground (arith, take_in-held p h)

  end_of_frame-held : (h : FrameHandler P) → held (end_of_frame P h) ≡ 0
  unfolding end_of_frame release_held_slabs restart
  end_of_frame-held h = refl

  pull_data-held : (p : Packet) (h : FrameHandler P) → held h ≤ 3072 → held (pull_data P p h) ≤ 3072
  unfolding pull_data
  pull_data-held p h b =
      let h' = on_slab_cap P (on_gap P p h) in
      let mh = get_or p.payload 0 0 / 64 in
      ground (
        arith,
        capped p h b,
        skip_body-held p h',
        main_packet-held mh p h',
        body_packet-held p h',
        end_of_frame-held (main_packet P mh p h').1,
        end_of_frame-held (body_packet P p h'),
      )

  run-held : (ps : List Packet) (h : FrameHandler P) → held h ≤ 3072 → held (run P ps h) ≤ 3072
  run-held [] h b = b
  run-held (p ∷ ps) h b = run-held ps (pull_data P p h) (pull_data-held p h b)

  -- Over every run of packets from a new handler on, a stream without end-of-codestream markers
  -- included, the handler holds at most 3072 slabs, so that the ring of 16384 slots is never used up
  -- by one frame.
  pub run-held-init : (ps : List Packet) (t : P.State) → held (run P ps (init P t)) ≤ 3072
  unfolding init
  run-held-init ps t = run-held ps (init P t) (omega arith)
