-- ===== src/Frame/Slabs.antt =====
-- frame_handler.hpp: the slabs of the receiver's ring that the frame handler holds and gives back.
use rtp_decoder_test.Base.{
  ℕ, ◌+◌, ◌≡◌, refl, ◌∙◌, false, Option, List, [], ◌∷◌, ◌++◌, arith, get_or, ◌/◌, ◌==◌,
  if◌then◌else◌,
}
use rtp_decoder_test.Frame.Calls.{
  Reason, slab_cap, missed_eoc, damaged_eoc, Relatch, Call, frame_abort, frame_ready, release_slab,
}
use rtp_decoder_test.Frame.State.{
  Parser, Packet, FrameHandler, init, fire_abort, end_frame_streak, release_held_slabs, restart,
  release_all,
}
use rtp_decoder_test.Frame.Cases.{with_stream, complete_header_cases}
use rtp_decoder_test.Frame.Delivery.{run}
use rtp_decoder_test.Frame.Handlers.{
  on_gap, on_slab_cap, skip_body, skipped_end, is_intact, take_in, fail_parse, on_missed_eoc, latch,
  split_header, reuse, complete_header, main_packet, parse_on, offer_point, on_signal, body_packet,
  flush_frame, end_of_frame, pull_data, pid,
}

module _ (k : ℕ) where
  -- How often the slab `k` is on a list.
  unfoldable pub count : List ℕ → ℕ
  count [] = 0
  count (i ∷ is) = (if i == k then 1 else 0) + count is

  -- How often the slab `k` was given back.
  unfoldable pub released : List Call → ℕ
  released [] = 0
  released (release_slab i ∷ cs) = (if i == k then 1 else 0) + released cs
  released (c ∷ cs) = released cs

  count-append : (is js : List ℕ) → count (is ++ js) ≡ count is + count js
  unfolding count
  count-append [] js = omega arith
  count-append (i ∷ is) js = omega (arith, count-append is js)

  released-release_all :
      (is : List ℕ) (cs : List Call) → released (release_all is cs) ≡ count is + released cs
  unfolding count released release_all
  released-release_all [] cs = omega arith
  released-release_all (i ∷ is) cs = omega (arith, released-release_all is (release_slab i ∷ cs))

  module _ (P : Parser) where
    -- The slabs `k` that the handler took over: held, or given back.
    abbrev pub owned : FrameHandler P → ℕ
    owned h = count h.held_slabs + released h.calls

    -- The slab of a packet counts once.
    abbrev pub own : Packet → ℕ
    own p = if p.slab_idx == k then 1 else 0

    fire_abort-owned : (why : Reason) (h : FrameHandler P) → owned (fire_abort P why h) ≡ owned h
    unfolding fire_abort released
    fire_abort-owned why h = ground arith

    release_held_slabs-owned : (h : FrameHandler P) → owned (release_held_slabs P h) ≡ owned h
    unfolding release_held_slabs count
    release_held_slabs-owned h = omega (arith, released-release_all h.held_slabs h.calls)

    on_gap-owned : (p : Packet) (h : FrameHandler P) → owned (on_gap P p h) ≡ owned h
    unfolding on_gap fire_abort released
    on_gap-owned p h = ground arith

    on_slab_cap-owned : (h : FrameHandler P) → owned (on_slab_cap P h) ≡ owned h
    unfolding on_slab_cap count released
    on_slab_cap-owned h = ground (
      arith,
      released-release_all h.held_slabs
          (if h.abort_armed then frame_abort slab_cap ∷ h.calls else h.calls),
    )

    skip_body-owned : (p : Packet) (h : FrameHandler P) → owned (skip_body P p h) ≡ own p + owned h
    unfolding skip_body skipped_end count released
    skip_body-owned p h = ground (
      arith,
      released-release_all h.held_slabs (
          if h.abort_armed
          then frame_abort damaged_eoc ∷ (release_slab p.slab_idx ∷ h.calls)
          else (release_slab p.slab_idx ∷ h.calls)),
      released-release_all h.held_slabs (release_slab p.slab_idx ∷ h.calls),
    )

    on_missed_eoc-owned : (h : FrameHandler P) → owned (on_missed_eoc P h) ≡ owned h
    unfolding on_missed_eoc count released
    on_missed_eoc-owned h = ground (
      arith,
      released-release_all h.held_slabs
          (if h.abort_armed then frame_abort missed_eoc ∷ h.calls else h.calls),
    )

    take_in-owned : (p : Packet) (h : FrameHandler P) → owned (take_in P p h) ≡ own p + owned h
    unfolding take_in released count
    take_in-owned p h = ground (arith, count-append h.held_slabs (p.slab_idx ∷ []))

    fail_parse-owned : (h : FrameHandler P) → owned (fail_parse P h) ≡ owned h
    unfolding fail_parse released
    fail_parse-owned h = ground arith

    latch-owned :
        (sig : ℕ) (why : Option Relatch) (h : FrameHandler P)
        → owned (latch P sig why h).1 ≡ owned h
    unfolding latch released
    latch-owned sig why h = ground arith

    reuse-owned : (sod : ℕ) (h : FrameHandler P) → owned (reuse P sod h).1 ≡ owned h
    unfolding reuse
    reuse-owned sod h = refl

    complete_header-owned :
        (p : Packet) (h : FrameHandler P) → owned (complete_header P p h).1 ≡ owned h
    complete_header-owned p h =
        complete_header_cases P (λ r. owned r.1 ≡ owned h) p h (fail_parse-owned h)
          (λ sod g t. reuse-owned sod (with_stream P g t h))
          (λ sig g why t. latch-owned sig why (with_stream P g t h))

    main_packet-owned :
        (mh : ℕ) (p : Packet) (h : FrameHandler P)
        → owned (main_packet P mh p h).1 ≡ own p + owned h
    unfolding main_packet split_header
    main_packet-owned mh p h =
        let start = record (on_missed_eoc P h) {
          is_parsing_failure = false;
          frame_parse_failed = false;
        } in
        ground (
          arith,
          on_missed_eoc-owned h,
          take_in-owned p start,
          complete_header-owned p (take_in P p start),
          reuse-owned 0 (take_in P p start),
        )

    parse_on-owned : (id : ℕ) (h : FrameHandler P) → owned (parse_on P id h) ≡ owned h
    unfolding parse_on released
    parse_on-owned id h = ground arith

    offer_point-owned :
        (byte : ℕ) (p : Packet) (h : FrameHandler P) → owned (offer_point P byte p h) ≡ owned h
    unfolding offer_point released
    offer_point-owned byte p h = ground arith

    on_signal-owned :
        (byte : ℕ) (p : Packet) (h : FrameHandler P) → owned (on_signal P byte p h) ≡ owned h
    unfolding on_signal
    on_signal-owned byte p h =
        let h' = record h { tile_hndr = P.append_signal byte (pid P p) h.tile_hndr } in
        ground
          (arith, offer_point-owned byte p h', parse_on-owned (pid P p) (offer_point P byte p h'))

    body_packet-owned :
        (p : Packet) (h : FrameHandler P) → owned (body_packet P p h) ≡ own p + owned h
    unfolding body_packet
    body_packet-owned p h = on_signal-owned _ p (take_in P p h) ∙ take_in-owned p h

    flush_frame-owned : (h : FrameHandler P) → owned (flush_frame P h) ≡ owned h
    unfolding flush_frame
    flush_frame-owned h = ground arith

    end_of_frame-owned : (h : FrameHandler P) → owned (end_of_frame P h) ≡ owned h
    unfolding end_of_frame end_frame_streak restart released count release_held_slabs
    end_of_frame-owned h = omega (
      arith,
      released-release_all walked.held_slabs (frame_ready (is_intact P h) ∷ walked.calls),
      walked-owned,
    )
      where
        disarmed : FrameHandler P
        disarmed = record h { abort_armed = false; resync_armed = false; resync_soft = false }

        walked : FrameHandler P
        walked = if is_intact P h then flush_frame P disarmed else disarmed

        walked-owned : owned walked ≡ owned h
        walked-owned = ground (arith, flush_frame-owned disarmed)

    pub pull_data-owned :
        (p : Packet) (h : FrameHandler P) → owned (pull_data P p h) ≡ own p + owned h
    unfolding pull_data
    pull_data-owned p h =
        let h' = on_slab_cap P (on_gap P p h) in
        let mh = get_or p.payload 0 0 / 64 in
        ground (
          arith,
          on_gap-owned p h,
          on_slab_cap-owned (on_gap P p h),
          skip_body-owned p h',
          main_packet-owned mh p h',
          body_packet-owned p h',
          end_of_frame-owned (main_packet P mh p h').1,
          end_of_frame-owned (body_packet P p h'),
        )

    -- The packets of a run that came in slab `k`.
    unfoldable pub arrived : List Packet → ℕ
    arrived [] = 0
    arrived (p ∷ ps) = own p + arrived ps

    run-owned : (ps : List Packet) (h : FrameHandler P) → owned (run P ps h) ≡ arrived ps + owned h
    unfolding arrived
    run-owned [] h = omega arith
    run-owned (p ∷ ps) h = omega (arith, run-owned ps (pull_data P p h), pull_data-owned p h)

    -- For every slab `k` and every run of packets from a new handler on, the times that the handler
    -- gave `k` back plus the times that it still holds it are the packets of the run that came in `k`:
    -- no slab leaks, none is given back twice, and none is given back that it was not given. This
    -- holds on every path through the handler, its early returns and its errors included.
    pub run-owned-init : (ps : List Packet) (t : P.State) → owned (run P ps (init P t)) ≡ arrived ps
    unfolding init released count
    run-owned-init ps t = run-owned ps (init P t) ∙ right
      where
        right : arrived ps + owned (init P t) ≡ arrived ps
        right = omega arith
