-- ===== src/Hook.antt =====
-- main.cpp, rtp_receive_hook: the frames of the receiver become the packets of the frame handler. The
-- statistics that it prints are left out. It registers no resync callback, and calls pull_data without a
-- gap flag.
use rtp_decoder_test.Base.{◌+◌, ◌-◌, ◌%◌, ◌^◌, ◌≤◌, ◌<◌, false, not, arith, ◌==◌, length}
use rtp_decoder_test.Receiver.State.{Frame}
use rtp_decoder_test.Frame.State.{Packet}

-- The arguments of pull_data; the size of the payload is a size_t.
unfoldable pub hook : Frame → Packet
hook f = record {
  payload = f.payload;
  size = (length f.payload + 2 ^ 64 - 8) % 2 ^ 64;
  marker = not (f.marker == 0);
  slab_idx = f.slab_idx;
  gap = false;
  gap_accepted = false;
  point_accepted = false;
}

-- A frame whose payload is shorter than the payload header of 8 bytes is handed on with a size within 8 of
-- 2 ^ 64, that of no buffer: the hook does not check the length.
pub hook-size : (f : Frame) → length f.payload < 8 → 2 ^ 64 - 8 ≤ (hook f).size
unfolding hook
hook-size f short = omega (arith, short)
