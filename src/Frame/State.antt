-- ===== src/Frame/State.antt =====
-- frame_handler.hpp: the state of the frame handler, and the helpers that its packet handler calls.
-- The tile handler and the header parser are the parameter `P`. The clocks, the logs and the
-- statistics of time are left out. A callback that is not registered observes nothing of what
-- `calls` records.
use rtp_decoder_test.Base.{ℕ, ◌+◌, ◌%◌, ◌^◌, Bool, true, false, ◌||◌, List, [], ◌∷◌, if◌then◌else◌}
use rtp_decoder_test.Codestream.{Codestream}
use rtp_decoder_test.Codestream
use rtp_decoder_test.Frame.Calls.{Reason, parse_failed, Call, chunk, frame_abort, release_slab}

-- What the frame handler asks of the tile handler and of the main header parser. A result `true`
-- of `parse` and `flush` is EXIT_FAILURE, one of `create` is success.
pub record Parser : Type 1 where
  pub State : Type 0
  pub is_ready : State → Bool
  pub invalidate : State → State
  pub parse_main_header : State → Codestream → ℕ × State × Codestream
  pub create : State → Codestream → Bool × State
  pub append_signal : ℕ → ℕ → State → State
  pub parse : State → Codestream → ℕ → Bool × State × Codestream
  pub flush : State → Codestream → Bool × State × Codestream
  pub restart : State → State

-- A call of `pull_data`, with what the resync callbacks answer if they are asked: `false` also
-- stands for a callback that is not registered.
pub record Packet : Type 0 where
  pub payload : List ℕ
  pub size : ℕ
  pub marker : Bool
  pub slab_idx : ℕ
  pub gap : Bool
  pub gap_accepted : Bool
  pub point_accepted : Bool

-- `reason == kAbortParse`
unfoldable pub is_parse : Reason → Bool
is_parse parse_failed = true
is_parse _ = false

-- The loop of `release_held_slabs`.
unfoldable pub release_all : List ℕ → List Call → List Call
release_all [] cs = cs
release_all (i ∷ is) cs = release_all is (release_slab i ∷ cs)

module _ (P : Parser) where
  -- The data members; `calls` are the callbacks made so far, the latest first.
  pub record FrameHandler : Type 0 where
    pub held_slabs : List ℕ
    pub chain_total_bytes : ℕ
    pub total_frames : ℕ
    pub trunc_frames : ℕ
    pub start_sod : ℕ
    pub is_parsing_failure : Bool
    pub is_passed_header : Bool
    pub tile_hndr : P.State
    pub cs : Codestream
    pub geom_sig : ℕ
    pub relatch_k : ℕ
    pub parse_fail_streak : ℕ
    pub frame_parse_failed : Bool
    pub relatches : ℕ
    pub resync_armed : Bool
    pub resync_soft : Bool
    pub abort_armed : Bool
    pub calls : List Call

  -- The constructor, over a tile handler.
  unfoldable pub init : P.State → FrameHandler
  init t = record {
    held_slabs = [];
    chain_total_bytes = 0;
    total_frames = 0;
    trunc_frames = 0;
    start_sod = 0;
    is_parsing_failure = false;
    is_passed_header = false;
    tile_hndr = t;
    cs = Codestream.empty;
    geom_sig = 0;
    relatch_k = 4;
    parse_fail_streak = 0;
    frame_parse_failed = false;
    relatches = 0;
    resync_armed = false;
    resync_soft = false;
    abort_armed = false;
    calls = [];
  }

  unfoldable pub deliver_chunk : ℕ → List ℕ → ℕ → FrameHandler → FrameHandler
  deliver_chunk off bytes len h = record h {
    abort_armed = true;
    calls = chunk off bytes len ∷ h.calls;
  }

  unfoldable pub fire_abort : Reason → FrameHandler → FrameHandler
  unfolding is_parse
  fire_abort why h = record h {
    frame_parse_failed = is_parse why || h.frame_parse_failed;
    resync_armed = false;
    resync_soft = false;
    abort_armed = false;
    calls = if h.abort_armed then frame_abort why ∷ h.calls else h.calls;
  }

  unfoldable pub end_frame_streak : Bool → FrameHandler → FrameHandler
  end_frame_streak clean h = record h {
    parse_fail_streak =
        if clean
        then 0
        else (if h.frame_parse_failed
            then (h.parse_fail_streak + 1) % 2 ^ 32
            else h.parse_fail_streak);
    frame_parse_failed = false;
  }

  unfoldable pub release_held_slabs : FrameHandler → FrameHandler
  unfolding release_all
  release_held_slabs h = record h {
    held_slabs = [];
    chain_total_bytes = 0;
    cs = Codestream.clear h.cs;
    calls = release_all h.held_slabs h.calls;
  }

  unfoldable pub restart : FrameHandler → FrameHandler
  restart h = record h { tile_hndr = P.restart h.tile_hndr }
