-- ===== src/Frame/Delivery.antt =====
-- frame_handler.hpp: pull_data keeps the contract, over every run of packets.
use rtp_decoder_test.Base.{
  ℕ, ◌≡◌, Bool, true, false, not, ◌&&◌, List, [], ◌∷◌, leb, get_or, ◌/◌, ◌||◌, ◌==◌, if◌then◌else◌,
}
use rtp_decoder_test.Frame.State.{Parser, Packet, FrameHandler}
use rtp_decoder_test.Frame.Handlers.{pull_data}
use rtp_decoder_test.Frame.Contract.{consumed, Begun}

abbrev pub mh_of : Packet → ℕ
mh_of p = get_or p.payload 0 0 / 64

-- Whether the main header may be split behind `p`, where `w` tells it before.
abbrev pub splits : Bool → Packet → Bool
splits w p = if leb 1 (mh_of p) then mh_of p == 1 else w

-- `p` is a body packet that ends a frame whose main header is split.
abbrev pub cuts_split : Bool → Packet → Bool
cuts_split w p = not (leb 1 (mh_of p)) && w && p.marker

abbrev pub has_cut_split : Bool → List Packet → Bool
has_cut_split w [] = false
has_cut_split w (p ∷ ps) = cuts_split w p || has_cut_split (splits w p) ps

module _ (P : Parser) where
  -- A frame has begun for the consumer, whether or not it was aborted since.
  abbrev IsBegun : FrameHandler P → Type 0
  IsBegun h = Begun h.abort_armed (consumed h.calls)

  -- Where a main packet does not return early, an abort is armed.
  abbrev GoesOn : Bool × FrameHandler P → Type 0
  GoesOn r = r.0 ≡ true → r.1.abort_armed ≡ true

  -- A run over packets, the first one first.
  abbrev pub run : List Packet → FrameHandler P → FrameHandler P
  run [] h = h
  run (p ∷ ps) h = run ps (pull_data P p h)
