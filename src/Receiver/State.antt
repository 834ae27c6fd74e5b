-- ===== src/Receiver/State.antt =====
-- rtp_receiver.hpp and rtp_receiver.cpp: the state of the receiver and its operations.
-- A datagram, a turn of the worker and a slab that is given back are steps that do not overlap.
-- Sockets, threads and the notifications of the worker are left out; a hook is set.
use rtp_decoder_test.Base.{
  ℕ, zero, suc, ◌+◌, ◌-◌, ◌/◌, ◌%◌, ◌^◌, Bool, true, false, not, ◌&&◌, none, some, List, ◌∷◌, ◌++◌,
  ltb, leb, ◌==◌, if◌then◌else◌, length, get_or, take, drop,
}
use rtp_decoder_test.Receiver.Datagram.{rd_u16, rd_u32, parse_dgram, slot_bytes}
use rtp_decoder_test.Receiver.Queue.{Job, JobQueue, set, enqueue_job, dequeue_job, ring_size}

pub record Slot : Type 0 where
  pub filled : Bool
  pub seq : ℕ
  pub hdr_len : ℕ
  pub len : ℕ
  pub in_worker : Bool

-- A packet as the hook gets it.
pub record Frame : Type 0 where
  pub seq : ℕ
  pub timestamp : ℕ
  pub ssrc : ℕ
  pub marker : ℕ
  pub payload_type : ℕ
  pub payload : List ℕ
  pub slab_idx : ℕ

-- The data members; `delivered` are the frames that the hook got, the latest first.
pub record Receiver : Type 0 where
  pub ring : ℕ → Slot
  pub slab : ℕ → List ℕ
  pub started : Bool
  pub next_seq : ℕ
  pub pending : ℕ
  pub jitter_depth : ℕ
  pub net_lost_packets : ℕ
  pub slot_busy_drops : ℕ
  pub queue_full_drops : ℕ
  pub queue : JobQueue
  pub delivered : List Frame

-- The resets of `start`.
unfoldable pub start : Receiver → Receiver
start r = record r {
  ring = λ i. record (r.ring i) { filled = false; len = 0; in_worker = false };
  started = false;
  next_seq = 0;
  pending = 0;
  net_lost_packets = 0;
  slot_busy_drops = 0;
  queue_full_drops = 0;
  queue = record (r.queue) { head = 0; tail = 0 };
}

abbrev pub set_in_worker : ℕ → Bool → Receiver → Receiver
set_in_worker i b r = record r { ring = set i (record (r.ring i) { in_worker = b }) r.ring }

-- `s.filled = false; s.len = 0; --pending_;`
abbrev pub clear_slot : ℕ → Receiver → Receiver
clear_slot i r = record r {
  ring = set i (record (r.ring i) { filled = false; len = 0 }) r.ring;
  pending = (r.pending + 2 ^ 64 - 1) % 2 ^ 64;
}

unfoldable pub dispatch : ℕ → ℕ → ℕ → ℕ → Receiver → Receiver
dispatch slab_idx len seq hdr_len r =
    let (queued, q) =
      enqueue_job (record { slab_idx = slab_idx; len = len; seq = seq; hdr_len = hdr_len })
        r.queue in
    let owned = set_in_worker slab_idx true r in
    if queued
    then record owned { queue = q }
    else record (set_in_worker slab_idx false owned) { queue_full_drops = r.queue_full_drops + 1 }

abbrev pub head : Receiver → ℕ
head r = r.next_seq % ring_size

-- The head slot holds the next packet.
abbrev pub head_ready : Receiver → Bool
head_ready r = (r.ring (head r)).filled && (r.ring (head r)).seq == r.next_seq

-- The head slot is handed to the worker and cleared.
unfoldable pub dispatch_head : Receiver → Receiver
dispatch_head r =
    let s = r.ring (head r) in clear_slot (head r) (dispatch (head r) s.len s.seq s.hdr_len r)

-- `++next_seq_`
abbrev pub bump : Receiver → Receiver
bump r = record r { next_seq = (r.next_seq + 1) % 2 ^ 16 }

-- A round of the loop that gives up waiting for the head.
unfoldable pub skip_head : Receiver → Receiver
skip_head r = bump (
    if head_ready r
    then dispatch_head r
    else record r { net_lost_packets = r.net_lost_packets + 1 })

-- The 16 bits of `seq - next_seq_`, and the order of the int16_t that they stand for.
abbrev pub diff : ℕ → Receiver → ℕ
diff seq r = (seq + 2 ^ 16 - r.next_seq) % 2 ^ 16

abbrev pub as_int16_leb : ℕ → ℕ → Bool
as_int16_leb a b = leb ((a + 2 ^ 15) % 2 ^ 16) ((b + 2 ^ 15) % 2 ^ 16)

-- `while (diff >= jitter_depth_)`, on fuel; 2 ^ 16 rounds are enough (Receiver.Advance).
unfoldable pub force_advance : ℕ → ℕ → Receiver → Receiver
force_advance zero seq r = r
force_advance (suc fuel) seq r =
    let rest = force_advance fuel seq (skip_head r) in
    if as_int16_leb r.jitter_depth (diff seq r) then rest else r

-- The loop of `release_in_order`, on fuel; `pending` rounds are enough (Receiver.Advance).
unfoldable pub release_loop : ℕ → Receiver → Receiver
release_loop zero r = r
release_loop (suc fuel) r =
    let rest = release_loop fuel (bump (dispatch_head r)) in
    if not (r.pending == 0) && head_ready r then rest else r

unfoldable pub release_in_order : Receiver → Receiver
release_in_order r = release_loop r.pending r

-- `memcpy` into a slot of the slab, and the fields of the slot.
unfoldable pub fill_slot : ℕ → ℕ → ℕ → List ℕ → Receiver → Receiver
fill_slot seq hdr len dgram r =
    let idx = seq % ring_size in
    record r {
      slab = λ i. if i == idx then take len dgram ++ drop len (r.slab i) else r.slab i;
      ring =
          set idx
            (record (r.ring idx) { seq = seq; hdr_len = hdr % 2 ^ 16; len = len; filled = true })
            r.ring;
      pending = (r.pending + 1) % 2 ^ 64;
    }

-- The datagram is stored, or counted as a drop.
unfoldable pub store : ℕ → ℕ → ℕ → List ℕ → Receiver → Receiver
store seq hdr len dgram r =
    let slot = r.ring (seq % ring_size) in
    if slot.filled
    then (if slot.seq == seq then r else record r { net_lost_packets = r.net_lost_packets + 1 })
    else (if slot.in_worker
        then record r { slot_busy_drops = r.slot_busy_drops + 1 }
        else release_in_order (fill_slot seq hdr len dgram r))

-- The first packet sets the sequence number that is waited for.
abbrev pub begin : ℕ → Receiver → Receiver
begin seq r = if r.started then r else record r { started = true; next_seq = seq }

unfoldable pub handle_dgram : List ℕ → Receiver → Receiver
handle_dgram dgram r =
    let seq = rd_u16 dgram 2 in
    let begun = begin seq r in
    elim (parse_dgram dgram) [
      | none ↦ r
      | some (hdr, len) ↦
          if leb (2 ^ 15) (diff seq begun)
          then begun
          else store seq hdr len dgram (force_advance (2 ^ 16) seq begun)
    ]

-- A round of `recv_loop`: the buffer has the size of a slot.
unfoldable pub recv_dgram : List ℕ → Receiver → Receiver
recv_dgram dgram r =
    let buf = take slot_bytes dgram in if ltb (length buf) 12 then r else handle_dgram buf r

unfoldable pub release_slab : ℕ → Receiver → Receiver
release_slab i r = if ltb i ring_size then set_in_worker i false r else r

abbrev pub frame_of : Job → List ℕ → Frame
frame_of j bytes = record {
  seq = j.seq;
  timestamp = rd_u32 bytes 4;
  ssrc = rd_u32 bytes 8;
  marker = get_or bytes 1 0 / 128 % 2;
  payload_type = get_or bytes 1 0 % 128;
  payload = take (j.len - j.hdr_len) (drop j.hdr_len bytes);
  slab_idx = j.slab_idx;
}

unfoldable pub process_job : Job → Receiver → Receiver
process_job j r =
    if leb j.hdr_len j.len
    then record r { delivered = frame_of j (r.slab j.slab_idx) ∷ r.delivered }
    else set_in_worker j.slab_idx false r

-- A turn of `worker_loop`.
unfoldable pub worker_turn : Receiver → Receiver
worker_turn r = elim (dequeue_job r.queue) [
  | none ↦ r
  | some (j, q) ↦ process_job j (record r { queue = q })
]
