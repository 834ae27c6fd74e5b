-- ===== src/Frame/Followed.antt =====
-- frame_handler.hpp: each handler that pull_data is made of keeps the contract.
use rtp_decoder_test.Base.{
  ℕ, ◌≡◌, refl, Bool, true, false, not, ◌&&◌, Bool-cases, ◌⊎◌, inl, inr, Option, [], ◌∷◌, arith,
  leb, ◌==◌, if◌then◌else◌, length, length-append,
}
use rtp_decoder_test.Frame.Calls.{
  parse_failed, missed_eoc, slab_cap, damaged_eoc, Relatch, frame_abort, release_slab,
}
use rtp_decoder_test.Frame.State.{Parser, Packet, FrameHandler, fire_abort}
use rtp_decoder_test.Frame.Cases.{with_stream, complete_header_cases}
use rtp_decoder_test.Frame.Handlers.{
  pid, on_gap, on_slab_cap, skip_body, take_in, fail_parse, on_missed_eoc, latch, split_header,
  reuse, complete_header, main_packet, parse_on, offer_point, on_signal, body_packet, j2k_payload,
}
use rtp_decoder_test.Frame.Contract.{
  consumed, Follows, deliver-Follows, abort-Follows, release-Follows, release_all-Follows,
}

module _ (P : Parser) where
  -- The contract has been kept, and an abort is armed while a frame is parsed. `w` tells whether the
  -- frame may be one whose main header is still split.
  pub record IsFollowed (w : Bool) (h : FrameHandler P) : Type 0 where
    pub followed : Follows h.abort_armed h.chain_total_bytes (consumed h.calls)
    pub armed : (h.is_passed_header && not h.is_parsing_failure && not h.abort_armed) ≡ false
    pub fresh : (length h.held_slabs == 0 && not (h.chain_total_bytes == 0)) ≡ false
    pub begun : (h.is_passed_header && length h.held_slabs == 0) ≡ false
    pub unopened : (length h.held_slabs == 0 && h.abort_armed) ≡ false
    pub joining : (h.abort_armed && not h.is_passed_header && not w) ≡ false

  pub on_gap-IsFollowed :
      {w : Bool} (p : Packet) (h : FrameHandler P) → IsFollowed w h → IsFollowed w (on_gap P p h)
  unfolding on_gap fire_abort consumed
  on_gap-IsFollowed p h v = ground arith

  pub on_slab_cap-IsFollowed :
      {w : Bool} (h : FrameHandler P) → IsFollowed w h → IsFollowed w (on_slab_cap P h)
  unfolding on_slab_cap
  on_slab_cap-IsFollowed h v = ground (
    arith,
    abort-Follows slab_cap h.abort_armed h.chain_total_bytes h.chain_total_bytes h.calls,
    release_all-Follows h.held_slabs h.chain_total_bytes 0
        (if h.abort_armed then frame_abort slab_cap ∷ h.calls else h.calls),
  )

  -- No split header is left behind by a marker.
  pub skip_body-IsFollowed :
      {w : Bool} (p : Packet) (h : FrameHandler P)
      → IsFollowed w h
      → (w && p.marker) ≡ false
      → IsFollowed w (skip_body P p h)
  unfolding skip_body
  skip_body-IsFollowed p h v s = ground (
    arith,
    release-Follows p.slab_idx h.abort_armed h.chain_total_bytes h.calls,
    abort-Follows damaged_eoc h.abort_armed h.chain_total_bytes h.chain_total_bytes
        (release_slab p.slab_idx ∷ h.calls),
    release_all-Follows h.held_slabs h.chain_total_bytes 0 (
        if h.abort_armed
        then frame_abort damaged_eoc ∷ release_slab p.slab_idx ∷ h.calls
        else release_slab p.slab_idx ∷ h.calls),
    release_all-Follows h.held_slabs h.chain_total_bytes 0 (release_slab p.slab_idx ∷ h.calls),
  )

  pub on_missed_eoc-IsFollowed :
      {w : Bool} (h : FrameHandler P) → IsFollowed w h → IsFollowed w (on_missed_eoc P h)
  unfolding on_missed_eoc
  on_missed_eoc-IsFollowed h v = ground (
    arith,
    abort-Follows missed_eoc h.abort_armed h.chain_total_bytes h.chain_total_bytes h.calls,
    release_all-Follows h.held_slabs h.chain_total_bytes 0
        (if h.abort_armed then frame_abort missed_eoc ∷ h.calls else h.calls),
  )

  pub take_in-armed : (p : Packet) (h : FrameHandler P) → (take_in P p h).abort_armed ≡ true
  unfolding take_in
  take_in-armed p h = refl

  -- A chunk at offset 0 before a frame, or in a frame that an abort can still hit.
  pub take_in-IsFollowed :
      {w : Bool} (p : Packet) (h : FrameHandler P)
      → IsFollowed w h
      → (h.abort_armed ≡ false → h.chain_total_bytes ≡ 0)
      → (w ≡ true) ⊎ (h.abort_armed ≡ true)
      → IsFollowed w (take_in P p h)
        × ((take_in P p h).abort_armed ≡ true)
        × ((length (take_in P p h).held_slabs == 0) ≡ false)
  unfolding take_in consumed
  take_in-IsFollowed p h v z o = ground (
    arith,
    length-append h.held_slabs (p.slab_idx ∷ []),
    deliver-Follows h.chain_total_bytes (j2k_payload P p) p.size h.abort_armed (consumed h.calls),
  )

  pub fail_parse-IsFollowed :
      (h : FrameHandler P) → IsFollowed true h → IsFollowed false (fail_parse P h)
  unfolding fail_parse
  fail_parse-IsFollowed h v = ground (
    arith,
    abort-Follows parse_failed h.abort_armed h.chain_total_bytes h.chain_total_bytes h.calls,
  )

  pub reuse-IsFollowed :
      (sod : ℕ) (h : FrameHandler P)
      → IsFollowed true h
      → h.abort_armed ≡ true
      → (length h.held_slabs == 0) ≡ false
      → IsFollowed false (reuse P sod h).1
  unfolding reuse
  reuse-IsFollowed sod h v a n = ground arith

  pub latch-IsFollowed :
      (sig : ℕ) (why : Option Relatch) (h : FrameHandler P)
      → IsFollowed true h
      → h.abort_armed ≡ true
      → (length h.held_slabs == 0) ≡ false
      → IsFollowed false (latch P sig why h).1
  unfolding latch consumed
  latch-IsFollowed sig why h v a n = ground (
    arith,
    abort-Follows parse_failed h.abort_armed h.chain_total_bytes h.chain_total_bytes h.calls,
  )

  pub split_header-IsFollowed :
      {w : Bool} (p : Packet) (h : FrameHandler P)
      → IsFollowed w h
      → IsFollowed w (split_header P p h).1
  unfolding split_header
  split_header-IsFollowed p h v = record {
    followed = v.followed;
    armed = v.armed;
    fresh = v.fresh;
    begun = v.begun;
    unopened = v.unopened;
    joining = v.joining;
  }

  pub complete_header-IsFollowed :
      (p : Packet) (h : FrameHandler P)
      → IsFollowed true h
      → h.abort_armed ≡ true
      → (length h.held_slabs == 0) ≡ false
      → IsFollowed false (complete_header P p h).1
  complete_header-IsFollowed p h v a n =
      complete_header_cases P (λ r. IsFollowed false r.1) p h (fail_parse-IsFollowed h v)
        (λ sod g t. reuse-IsFollowed sod (with_stream P g t h) (keep g t) a n)
        (λ sig g why t. latch-IsFollowed sig why (with_stream P g t h) (keep g t) a n)
    where
      keep : (g : ℕ) (t : P.State) → IsFollowed true (with_stream P g t h)
      keep g t = record {
        followed = v.followed;
        armed = v.armed;
        fresh = v.fresh;
        begun = v.begun;
        unopened = v.unopened;
        joining = v.joining;
      }

  -- What a main packet starts from: an empty chain, no header and nothing to abort.
  pub on_missed_eoc-empty :
      {w : Bool} (h : FrameHandler P)
      → IsFollowed w h
      → ((on_missed_eoc P h).chain_total_bytes ≡ 0)
        × ((on_missed_eoc P h).is_passed_header ≡ false)
        × ((on_missed_eoc P h).abort_armed ≡ false)
  unfolding on_missed_eoc
  on_missed_eoc-empty h v = ground arith

  -- A header that is not split is joined in one packet.
  joined-IsFollowed : (w : Bool) (h : FrameHandler P) → IsFollowed false h → IsFollowed w h
  joined-IsFollowed w h v = record {
    followed = v.followed;
    armed = v.armed;
    fresh = v.fresh;
    begun = v.begun;
    unopened = v.unopened;
    joining = ground (arith, v.joining);
  }

  pub main_packet-IsFollowed :
      {w : Bool} (mh : ℕ) (p : Packet) (h : FrameHandler P)
      → IsFollowed w h
      → leb 1 mh ≡ true
      → IsFollowed (mh == 1) (main_packet P mh p h).1
  unfolding main_packet
  main_packet-IsFollowed {w} mh p h v l = elim (Bool-cases (leb 2 mh)) [
    | inl whole ↦ rw whole (
        joined-IsFollowed (mh == 1) _ (complete_header-IsFollowed p joined taken.0 taken.1 taken.2))
    | inr part ↦ rw part (elim (Bool-cases (P.is_ready joined.tile_hndr)) [
      | inl latched ↦
          rw latched
            (joined-IsFollowed (mh == 1) _ (reuse-IsFollowed 0 joined taken.0 taken.1 taken.2))
      | inr unlatched ↦
          let split : (mh == 1) ≡ true = ground arith in
          rw (unlatched, split) (split_header-IsFollowed p joined taken.0)
    ])
  ]
    where
      start : FrameHandler P
      start = record (on_missed_eoc P h) { is_parsing_failure = false; frame_parse_failed = false }

      joined : FrameHandler P
      joined = take_in P p start

      start-IsFollowed : IsFollowed true start
      start-IsFollowed = ground (arith, on_missed_eoc-IsFollowed h v, on_missed_eoc-empty h v)

      taken :
          IsFollowed true joined
          × (joined.abort_armed ≡ true)
          × ((length joined.held_slabs == 0) ≡ false)
      taken =
          take_in-IsFollowed p start start-IsFollowed (λ n. (on_missed_eoc-empty h v).0) (inl refl)

  pub parse_on-IsFollowed :
      {w : Bool} (id : ℕ) (h : FrameHandler P) → IsFollowed w h → IsFollowed w (parse_on P id h)
  unfolding parse_on
  parse_on-IsFollowed id h v = ground (
    arith,
    abort-Follows parse_failed h.abort_armed h.chain_total_bytes h.chain_total_bytes h.calls,
  )

  pub offer_point-IsFollowed :
      {w : Bool} (byte : ℕ) (p : Packet) (h : FrameHandler P)
      → IsFollowed w h
      → IsFollowed w (offer_point P byte p h)
  unfolding offer_point consumed
  offer_point-IsFollowed byte p h v = ground arith

  pub on_signal-IsFollowed :
      {w : Bool} (byte : ℕ) (p : Packet) (h : FrameHandler P)
      → IsFollowed w h
      → IsFollowed w (on_signal P byte p h)
  unfolding on_signal
  on_signal-IsFollowed {w} byte p h v = ground (
    arith,
    offer_point-IsFollowed {w = w} byte p
        (record h { tile_hndr = P.append_signal byte (pid P p) h.tile_hndr }),
    parse_on-IsFollowed {w = w} (pid P p) (
        offer_point P byte p (record h { tile_hndr = P.append_signal byte (pid P p) h.tile_hndr })),
  )

  pub body_packet-IsFollowed :
      {w : Bool} (p : Packet) (h : FrameHandler P)
      → IsFollowed w h
      → h.abort_armed ≡ true
      → IsFollowed w (body_packet P p h)
  unfolding body_packet
  body_packet-IsFollowed p h v a =
      on_signal-IsFollowed _ p (take_in P p h)
        (take_in-IsFollowed p h v (λ n. absurd (ground arith)) (inr a)).0
