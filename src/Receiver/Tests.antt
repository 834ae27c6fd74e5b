-- ===== src/Receiver/Tests.antt =====
-- Runs of the receiver, and its theorems at concrete datagrams.
use rtp_decoder_test.Base.{
  ℕ, ◌%◌, ◌≤◌, ◌<◌, ◌≡◌, refl, true, false, none, some, List, [], ◌∷◌, arith, length,
}
use rtp_decoder_test.Receiver.Datagram.{
  rd_u16, header_length, parse_dgram, slot_bytes, parse_dgram-bounds,
}
use rtp_decoder_test.Receiver.Queue.{Job, JobQueue, enqueue_job, dequeue_job}
use rtp_decoder_test.Receiver.Fifo.{
  IsQueue, contents, pushed, popped, enqueue_job-contents, dequeue_job-contents,
}
use rtp_decoder_test.Receiver.State.{Receiver, store, handle_dgram}
use rtp_decoder_test.Receiver.Window.{IsWindowed}
use rtp_decoder_test.Receiver.Advance.{handle_dgram-IsWindowed}
use rtp_decoder_test.Receiver.Ownership.{Owns, handle_dgram-Owns, store-net_lost}
use rtp_decoder_test.Receiver.Order.{handle_dgram-Leaves}
use rtp_decoder_test.Receiver.Passed.{Leaves}

abbrev job : Job
job = record { slab_idx = 5; len = 14; seq = 5; hdr_len = 12 }

-- The queue is about to wrap around.
abbrev one_job : JobQueue
one_job = record { jobs = λ i. job; head = 16383; tail = 0 }

one_job-IsQueue : IsQueue one_job
one_job-IsQueue = record { head_lt = omega arith; tail_lt = omega arith }

-- Slot 9 is with the worker, and number 5 is waited for.
abbrev waiting : Receiver
waiting = record {
  ring = λ i. record { filled = false; seq = 0; hdr_len = 0; len = 0; in_worker = true };
  slab = λ i. [];
  started = true;
  next_seq = 5;
  pending = 0;
  jitter_depth = 64;
  net_lost_packets = 0;
  slot_busy_drops = 0;
  queue_full_drops = 0;
  queue = one_job;
  delivered = [];
}

waiting-IsWindowed : IsWindowed waiting
waiting-IsWindowed = record {
  next_lt = omega arith;
  depth_pos = omega arith;
  depth_le = omega arith;
  kept = λ i f. cc;
}

-- Number 100, with two bytes of payload and one byte of padding.
abbrev packet : List ℕ
packet = 0xa0 ∷ 96 ∷ 0 ∷ 100 ∷ 0 ∷ 0 ∷ 0 ∷ 1 ∷ 0 ∷ 0 ∷ 0 ∷ 2 ∷ 7 ∷ 8 ∷ 1 ∷ []

packet-number : rd_u16 packet 2 ≡ 100
unfolding rd_u16
packet-number = refl

packet-number_lt : rd_u16 packet 2 < 65536
packet-number_lt = omega (arith, packet-number)

packet-parsed : parse_dgram packet ≡ some (12, 14)
unfolding parse_dgram header_length
packet-parsed = refl

parse_dgram-bounds_example :
    (12 ≤ 12) × (12 ≤ 14) × (14 ≤ slot_bytes) × (14 ≤ length packet) × (12 % 65536 ≡ 12)
parse_dgram-bounds_example = parse_dgram-bounds packet 12 14 packet-parsed

enqueue_job-contents_example :
    (((enqueue_job job one_job).0, contents (enqueue_job job one_job).1)
      ≡ pushed job (contents one_job))
    × IsQueue (enqueue_job job one_job).1
enqueue_job-contents_example = enqueue_job-contents job one_job one_job-IsQueue

dequeue_job-contents_example :
    elim (dequeue_job one_job) [ none ↦ none | some (j, q') ↦ some (j, contents q') ]
    ≡ popped (contents one_job)
dequeue_job-contents_example = dequeue_job-contents one_job one_job-IsQueue

handle_dgram-IsWindowed_example : IsWindowed (handle_dgram packet waiting)
handle_dgram-IsWindowed_example =
    handle_dgram-IsWindowed packet waiting packet-number_lt waiting-IsWindowed

handle_dgram-Owns_example : Owns 9 [] (handle_dgram packet waiting)
handle_dgram-Owns_example =
    handle_dgram-Owns 9 [] packet waiting packet-number_lt waiting-IsWindowed (refl, refl)

handle_dgram-Leaves_example : Leaves 49151 waiting (handle_dgram packet waiting)
handle_dgram-Leaves_example =
    handle_dgram-Leaves packet waiting packet-number_lt waiting-IsWindowed one_job-IsQueue refl

store-net_lost_example : (store 6 12 14 packet waiting).net_lost_packets ≡ 0
store-net_lost_example =
    store-net_lost 6 12 14 packet waiting waiting-IsWindowed (omega arith) (omega arith)
