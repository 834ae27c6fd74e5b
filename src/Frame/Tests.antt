-- ===== src/Frame/Tests.antt =====
-- Runs of the frame handler over a small tile handler, and its theorems at them.
use rtp_decoder_test.Base.{ℕ, ◌≡◌, refl, true, false, none, ltb, List, [], ◌∷◌, ◌≤◌, ◌+◌}
use rtp_decoder_test.Frame.Calls.{chunk, frame_ready, release_slab}
use rtp_decoder_test.Frame.State.{Parser, Packet, FrameHandler, init}
use rtp_decoder_test.Frame.Contract.{consumed}
use rtp_decoder_test.Frame.Handlers.{
  pull_data, main_packet, on_slab_cap, on_gap, end_of_frame, body_packet, on_signal, offer_point,
  parse_on, flush_frame, complete_header, latch, reuse, relatch_reason, tell_relatch, take_in,
  on_missed_eoc, split_header, skip_body, skipped_end,
}
use rtp_decoder_test.Signature.{geometry_signature, rd16, scan}
use rtp_decoder_test.Frame.Delivery.{run}
use rtp_decoder_test.Frame.Slabs.{released, owned, own, arrived, run-owned-init}
use rtp_decoder_test.Frame.Drained.{all-released}
use rtp_decoder_test.Frame.Capacity.{held, run-held-init}
use rtp_decoder_test.Frame.Reports.{signature, IsLatched, complete_header-IsLatched}

-- A tile handler that counts precinct signals, and takes any header.
abbrev counting : Parser
counting = record {
  State = ℕ;
  is_ready = ltb 0;
  invalidate = λ t. 0;
  parse_main_header = λ t cs. (4, t, cs);
  create = λ t cs. (true, 1);
  append_signal = λ b i t. t + 1;
  parse = λ t cs i. (false, t, cs);
  flush = λ t cs. (false, t, cs);
  restart = λ t. t;
}

abbrev main : Packet
main = record {
  payload = 0x80 ∷ 0 ∷ 0 ∷ 0 ∷ 0 ∷ 0 ∷ 0 ∷ 0 ∷ 0xff ∷ 0x4f ∷ 0xff ∷ 0x93 ∷ [];
  size = 4;
  marker = false;
  slab_idx = 7;
  gap = false;
  gap_accepted = false;
  point_accepted = false;
}

abbrev body : Packet
body = record main {
  payload = 0 ∷ 0x80 ∷ 0 ∷ 0 ∷ 0 ∷ 0x10 ∷ 0 ∷ 0 ∷ 1 ∷ 2 ∷ [];
  size = 2;
  slab_idx = 8;
}

abbrev last : Packet
last = record body { marker = true; slab_idx = 9 }

abbrev damaged : Packet
damaged = record body { gap = true; slab_idx = 10 }

-- A frame, and one that is cut off by a lost packet.
abbrev two_frames : List Packet
two_frames = main ∷ body ∷ last ∷ main ∷ damaged ∷ last ∷ []

frame_told :
    (run counting (main ∷ body ∷ last ∷ []) (init counting 0)).calls
    ≡ release_slab 9
      ∷ release_slab 8
      ∷ release_slab 7
      ∷ frame_ready true
      ∷ chunk 6 (1 ∷ 2 ∷ []) 2
      ∷ chunk 4 (1 ∷ 2 ∷ []) 2
      ∷ chunk 0 (0xff ∷ 0x4f ∷ 0xff ∷ 0x93 ∷ []) 4
      ∷ []
unfolding init pull_data main_packet on_slab_cap on_gap end_of_frame body_packet on_signal
    offer_point parse_on flush_frame complete_header latch reuse relatch_reason tell_relatch
    geometry_signature rd16 scan take_in on_missed_eoc
frame_told = refl

-- A split main header on a stream that is not latched.
abbrev split : Packet
split = record main { payload = 0x40 ∷ 0 ∷ 0 ∷ 0 ∷ 0 ∷ 0 ∷ 0 ∷ 0 ∷ 0xff ∷ 0x4f ∷ 0xff ∷ 0x93 ∷ [] }

-- A marked body packet behind it ends the frame, and the consumer is not told.
split_cut : consumed (run counting (split ∷ last ∷ main ∷ []) (init counting 0)).calls ≡ none
unfolding init pull_data main_packet on_slab_cap on_gap end_of_frame body_packet on_signal
    offer_point parse_on flush_frame complete_header latch reuse relatch_reason tell_relatch
    geometry_signature rd16 scan take_in on_missed_eoc split_header skip_body skipped_end consumed
split_cut = refl

run-owned-init_example :
    owned 9 counting (run counting two_frames (init counting 0)) ≡ arrived 9 counting two_frames
run-owned-init_example = run-owned-init 9 counting two_frames 0

run-held-init_example : held counting (run counting two_frames (init counting 0)) ≤ 3072
run-held-init_example = run-held-init counting two_frames 0

-- A main header on a stream that is latched to another signature.
abbrev latched : FrameHandler counting
latched = record (init counting 1) { geom_sig = 5 }

complete_header-IsLatched_example :
    IsLatched counting (signature counting main) latched (complete_header counting main latched).1
unfolding init complete_header relatch_reason latch geometry_signature scan rd16
complete_header-IsLatched_example = complete_header-IsLatched counting (λ t. refl) main latched refl

all-released_example :
    released 9 (pull_data counting last (run counting (main ∷ body ∷ []) (init counting 0))).calls
    ≡ own 9 counting last + arrived 9 counting (main ∷ body ∷ [])
all-released_example = all-released counting 9 (main ∷ body ∷ []) last 0 (refl, refl)
