-- ===== src/Frame/Handlers.antt =====
-- frame_handler.hpp: frame_handler::pull_data, and the hook of main.cpp that calls it.
use rtp_decoder_test.Base.{
  ℕ, ◌+◌, ◌*◌, ◌/◌, ◌%◌, ◌^◌, Bool, true, false, not, ◌&&◌, ◌||◌, Option, none, some, List, [], ◌∷◌,
  ◌++◌, leb, ◌==◌, if◌then◌else◌, length, get_or, take, drop,
}
use rtp_decoder_test.Codestream
use rtp_decoder_test.Signature.{geometry_signature}
use rtp_decoder_test.Frame.Calls.{
  gap, parse_failed, missed_eoc, slab_cap, damaged_eoc, Relatch, geometry, parse_fails, frame_ready,
  release_slab, resync_gap, resync_point, relatch,
}
use rtp_decoder_test.Frame.State.{
  Parser, Packet, FrameHandler, deliver_chunk, fire_abort, end_frame_streak, release_held_slabs,
  restart,
}

module _ (P : Parser) where
  -- `if (gap && …)`: the consumer is asked only with a main header behind it.
  unfoldable pub on_gap : Packet → FrameHandler P → FrameHandler P
  unfolding fire_abort
  on_gap p h =
      let asked = record h { calls = resync_gap h.chain_total_bytes ∷ h.calls } in
      let g = if h.is_passed_header then asked else h in
      if p.gap && (h.is_passed_header || not (length h.held_slabs == 0)) && not h.is_parsing_failure
      then (if h.is_passed_header && p.gap_accepted
          then record g { resync_armed = true; resync_soft = true }
          else record (fire_abort P gap g) { is_parsing_failure = true })
      else h

  -- `if (held_slabs_.size() >= 3072)`
  unfoldable pub on_slab_cap : FrameHandler P → FrameHandler P
  unfolding fire_abort release_held_slabs restart end_frame_streak
  on_slab_cap h =
      let capped = restart P (release_held_slabs P (fire_abort P slab_cap h)) in
      let counted =
        end_frame_streak P false (record capped { trunc_frames = capped.trunc_frames + 1 }) in
      if leb 3072 (length h.held_slabs)
      then record counted { is_parsing_failure = false; is_passed_header = false }
      else h

  -- The end of a frame whose body was skipped.
  unfoldable pub skipped_end : FrameHandler P → FrameHandler P
  unfolding fire_abort end_frame_streak release_held_slabs restart
  skipped_end h =
      let damaged = fire_abort P damaged_eoc h in
      let counted =
        end_frame_streak P false (record damaged {
          trunc_frames = h.trunc_frames + 1;
          total_frames = h.total_frames + 1;
        }) in
      let tracked = if h.is_parsing_failure || h.is_passed_header then counted else h in
      restart P (
        release_held_slabs P
          (record tracked { is_parsing_failure = false; is_passed_header = false }))

  -- `if (MH == 0 && (!is_passed_header || is_parsing_failure))`
  unfoldable pub skip_body : Packet → FrameHandler P → FrameHandler P
  unfolding skipped_end
  skip_body p h =
      let dropped = record h { calls = release_slab p.slab_idx ∷ h.calls } in
      if p.marker then skipped_end dropped else dropped

  -- The J2K bytes behind the 8 bytes of the payload header.
  abbrev pub j2k_payload : Packet → List ℕ
  j2k_payload p = take p.size (drop 8 p.payload)

  -- The chunk of `p` joins the chain.
  unfoldable pub take_in : Packet → FrameHandler P → FrameHandler P
  unfolding deliver_chunk
  take_in p h =
      let told = deliver_chunk P h.chain_total_bytes (j2k_payload p) p.size h in
      record told {
        cs = Codestream.append_chunk (j2k_payload p) h.cs;
        held_slabs = h.held_slabs ++ (p.slab_idx ∷ []);
        chain_total_bytes = h.chain_total_bytes + p.size;
      }

  unfoldable pub fail_parse : FrameHandler P → FrameHandler P
  unfolding fire_abort
  fail_parse h = record (fire_abort P parse_failed h) { is_parsing_failure = true }

  -- A main packet gives up a frame that is still open.
  unfoldable pub on_missed_eoc : FrameHandler P → FrameHandler P
  unfolding fire_abort release_held_slabs restart end_frame_streak
  on_missed_eoc h =
      let freed = restart P (release_held_slabs P (fire_abort P missed_eoc h)) in
      let counted =
        end_frame_streak P false
          (record freed { trunc_frames = h.trunc_frames + 1; total_frames = h.total_frames + 1 }) in
      let tracked = if h.is_passed_header || h.is_parsing_failure then counted else freed in
      if length h.held_slabs == 0 then h else record tracked { is_passed_header = false }

  -- Why a complete main header with signature `sig` is latched anew on a ready stream.
  unfoldable pub relatch_reason : ℕ → FrameHandler P → Option Relatch
  relatch_reason sig h =
      if not (h.relatch_k == 0) && leb h.relatch_k h.parse_fail_streak
      then some parse_fails
      else (if sig == h.geom_sig then none else some geometry)

  unfoldable pub tell_relatch : Option Relatch → FrameHandler P → FrameHandler P
  tell_relatch none h = h
  tell_relatch (some why) h = record h {
    relatches = h.relatches + 1;
    calls = relatch why ∷ h.calls;
  }

  -- The full parse of a complete main header; `false` is the early return.
  unfoldable pub latch : ℕ → Option Relatch → FrameHandler P → Bool × FrameHandler P
  unfolding fail_parse tell_relatch
  latch sig why h =
      let (sod, t, cs) = P.parse_main_header h.tile_hndr (Codestream.reset 0 h.cs) in
      let (created, t') = P.create t cs in
      let unparsed = record h { start_sod = sod; tile_hndr = t; cs = cs } in
      let built = record unparsed { tile_hndr = t' } in
      if sod == 0
      then (false, fail_parse unparsed)
      else (if created
          then (
            true,
            tell_relatch why
                (record built { is_passed_header = true; geom_sig = sig; parse_fail_streak = 0 }),
          )
          else (false, fail_parse built))

  unfoldable pub split_header : Packet → FrameHandler P → Bool × FrameHandler P
  split_header p h =
      let sod = (h.start_sod + p.size) % 2 ^ 32 in
      (if sod == 0 then false else true, record h { start_sod = sod })

  unfoldable pub reuse : ℕ → FrameHandler P → Bool × FrameHandler P
  reuse sod h =
      let start = if sod == 0 then h.start_sod else sod in
      (
        true,
        record h { start_sod = start; cs = Codestream.reset start h.cs; is_passed_header = true },
      )

  -- MH >= 2: the re-latch guard, then the header is latched or the latched stream reused.
  unfoldable pub complete_header : Packet → FrameHandler P → Bool × FrameHandler P
  complete_header p h =
      let (sig, sod) = geometry_signature (j2k_payload p) in
      let adopted = record h { geom_sig = if h.geom_sig == 0 then sig else h.geom_sig } in
      let why = relatch_reason sig adopted in
      let dropped = record adopted { tile_hndr = P.invalidate h.tile_hndr } in
      if P.is_ready h.tile_hndr
      then (if sig == 0 then (false, fail_parse h) else elim why [
        | none ↦ reuse sod adopted
        | some w ↦
            if P.is_ready dropped.tile_hndr then reuse sod dropped else latch sig (some w) dropped
      ])
      else latch sig none h

  unfoldable pub main_packet : ℕ → Packet → FrameHandler P → Bool × FrameHandler P
  main_packet mh p h =
      let fresh = record (on_missed_eoc h) {
        is_parsing_failure = false;
        frame_parse_failed = false;
      } in
      let h' = take_in p fresh in
      if leb 2 mh
      then complete_header p h'
      else (if P.is_ready h'.tile_hndr then reuse 0 h' else split_header p h')

  -- The fields of the RFC 9828 payload header.
  abbrev pub ordb : Packet → Bool
  ordb p = get_or p.payload 1 0 / 128 % 2 == 1

  abbrev pub pos_pid : Packet → ℕ
  pos_pid p =
      ((get_or p.payload 4 0 * 256 + get_or p.payload 5 0) * 256 + get_or p.payload 6 0) * 256
      + get_or p.payload 7 0

  abbrev pub pid : Packet → ℕ
  pid p = pos_pid p % 2 ^ 20

  -- `ACTION(parse, PID)` and the abort behind it.
  unfoldable pub parse_on : ℕ → FrameHandler P → FrameHandler P
  unfolding fire_abort
  parse_on id h =
      let (failed, t, cs) = P.parse h.tile_hndr h.cs id in
      let parsed = record h { tile_hndr = t; cs = cs } in
      if failed
      then fire_abort P parse_failed
          (record parsed { is_parsing_failure = true; is_passed_header = false })
      else parsed

  unfoldable pub offer_point : ℕ → Packet → FrameHandler P → FrameHandler P
  offer_point byte p h =
      if h.resync_armed
      then record h {
        resync_armed = not p.point_accepted;
        calls = resync_point byte (pid p) ∷ h.calls;
      }
      else h

  unfoldable pub on_signal : ℕ → Packet → FrameHandler P → FrameHandler P
  on_signal byte p h =
      let h' =
        offer_point byte p (record h { tile_hndr = P.append_signal byte (pid p) h.tile_hndr }) in
      if ordb p && h.is_passed_header
      then (if not h'.is_parsing_failure && not h'.resync_soft then parse_on (pid p) h' else h')
      else h

  unfoldable pub body_packet : Packet → FrameHandler P → FrameHandler P
  body_packet p h =
      on_signal ((h.chain_total_bytes % 2 ^ 32 + pos_pid p / 2 ^ 20) % 2 ^ 32) p (take_in p h)

  -- `ACTION(flush)` of a frame that is intact so far.
  unfoldable pub flush_frame : FrameHandler P → FrameHandler P
  flush_frame h =
      let (failed, t, cs) = P.flush h.tile_hndr h.cs in
      let flushed = record h { tile_hndr = t; cs = cs } in
      if failed
      then record flushed {
        is_parsing_failure = true;
        is_passed_header = false;
        frame_parse_failed = true;
      }
      else flushed

  abbrev pub is_intact : FrameHandler P → Bool
  is_intact h = not h.is_parsing_failure && h.is_passed_header && not h.resync_soft

  -- `if (marker)`: the end of the frame.
  unfoldable pub end_of_frame : FrameHandler P → FrameHandler P
  end_of_frame h =
      let intact = is_intact h in
      let disarmed = record h { abort_armed = false; resync_armed = false; resync_soft = false } in
      let walked = if intact then flush_frame disarmed else disarmed in
      let told = end_frame_streak P (intact && not walked.is_parsing_failure) walked in
      let counted = record told {
        calls = frame_ready intact ∷ told.calls;
        trunc_frames = if told.is_parsing_failure then told.trunc_frames + 1 else told.trunc_frames;
        total_frames = told.total_frames + 1;
        is_parsing_failure = false;
        is_passed_header = false;
      } in
      restart P (release_held_slabs P counted)

  unfoldable pub pull_data : Packet → FrameHandler P → FrameHandler P
  pull_data p h =
      let h' = on_slab_cap (on_gap p h) in
      let mh = get_or p.payload 0 0 / 64 in
      let (goes_on, h'') = if leb 1 mh then main_packet mh p h' else (true, body_packet p h') in
      if mh == 0 && (not h'.is_passed_header || h'.is_parsing_failure)
      then skip_body p h'
      else (if goes_on && p.marker then end_of_frame h'' else h'')
