-- ===== src/Receiver/Queue.antt =====
-- rtp_receiver.cpp, the queue of jobs between the receiving thread and the worker thread.
use rtp_decoder_test.Base.{ℕ, ◌+◌, ◌%◌, Bool, true, false, Option, none, some, ◌==◌, if◌then◌else◌}

-- kRingSize and kJobQueueSize
abbrev pub ring_size : ℕ
ring_size = 16384

pub record Job : Type 0 where
  pub slab_idx : ℕ
  pub len : ℕ
  pub seq : ℕ
  pub hdr_len : ℕ

-- A write to an array.
abbrev pub set {ℓ} : {A : Type ℓ} → ℕ → A → (ℕ → A) → ℕ → A
set i x f j = if j == i then x else f j

-- `job_queue_`, `job_head_` and `job_tail_`.
pub record JobQueue : Type 0 where
  pub jobs : ℕ → Job
  pub head : ℕ
  pub tail : ℕ

-- `false` where the queue is full.
unfoldable pub enqueue_job : Job → JobQueue → Bool × JobQueue
enqueue_job j q =
    let next_tail = (q.tail + 1) % ring_size in
    if next_tail == q.head
    then (false, q)
    else (true, record q { jobs = set q.tail j q.jobs; tail = next_tail })

-- `none` where the queue is empty.
unfoldable pub dequeue_job : JobQueue → Option (Job × JobQueue)
dequeue_job q =
    if q.head == q.tail
    then none
    else some (q.jobs q.head, record q { head = (q.head + 1) % ring_size })
