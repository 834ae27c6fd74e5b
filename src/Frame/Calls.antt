-- ===== src/Frame/Calls.antt =====
-- The callbacks of frame_handler.hpp and the reasons that they carry.
use rtp_decoder_test.Base.{ℕ, Bool, List}

-- kAbortGap … kAbortDamagedEOC
pub data Reason : Type 0 where
  gap parse_failed missed_eoc slab_cap damaged_eoc : Reason

-- kRelatchGeometry, kRelatchParseFail
pub data Relatch : Type 0 where
  geometry parse_fails : Relatch

-- ChunkCb, FrameAbortCb, FrameReadyCb, ReleaseSlabCb, ResyncGapCb, ResyncPointCb, StreamRelatchCb.
pub data Call : Type 0 where
  chunk : ℕ → List ℕ → ℕ → Call
  frame_abort : Reason → Call
  frame_ready : Bool → Call
  release_slab : ℕ → Call
  resync_gap : ℕ → Call
  resync_point : ℕ → ℕ → Call
  relatch : Relatch → Call
