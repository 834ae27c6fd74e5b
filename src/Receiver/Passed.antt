-- ===== src/Receiver/Passed.antt =====
-- rtp_receiver.cpp: how jobs leave the ring for the queue, one number after the other.
use mathlib.Core.Path.{subst}
use rtp_decoder_test.Base.{
  ℕ, suc, ◌+◌, ◌%◌, ◌≤◌, ◌≡◌, refl, sym, ap, ◌∙◌, Bool, true, Bool-cases, ◌⊎◌, inl, inr, List, [],
  ◌∷◌, ◌++◌, append-nil, append_assoc, arith, ◌==◌, length,
}
use rtp_decoder_test.Receiver.Queue.{Job, JobQueue, enqueue_job}
use rtp_decoder_test.Receiver.Fifo.{IsQueue, contents, pushed, enqueue_job-contents}
use rtp_decoder_test.Receiver.State.{Receiver, dispatch, dispatch_head, bump, head, head_ready}
use rtp_decoder_test.Receiver.Window.{dispatch_head-next}

-- The jobs that leave while the next number goes from `n` to `m` in `d` steps of one: each step passes one
-- number, whose job leaves or is missed. In fewer than 2 ^ 16 steps no number is passed twice.
pub data Passed : ℕ → ℕ → ℕ → List Job → Type 0 where
  arrived : {n : ℕ} → Passed 0 n n []
  missed : {d n m : ℕ} {js : List Job} → Passed d ((n + 1) % 65536) m js → Passed (suc d) n m js
  left :
      {d n m : ℕ} {j : Job} {js : List Job}
      → j.seq ≡ n
      → Passed d ((n + 1) % 65536) m js
      → Passed (suc d) n m (j ∷ js)

-- What leaves between `r` and `r'` joins the end of the queue, in `most` steps or fewer.
pub record Leaves (most : ℕ) (r r' : Receiver) : Type 0 where
  pub steps : ℕ
  pub bounded : steps ≤ most
  pub jobs : List Job
  pub passed : Passed steps r.next_seq r'.next_seq jobs
  pub joined : contents r'.queue ≡ contents r.queue ++ jobs
  pub indexed : IsQueue r'.queue

pub unmoved :
    (most : ℕ) (r r' : Receiver)
    → IsQueue r.queue
    → r'.next_seq ≡ r.next_seq
    → r'.queue ≡ r.queue
    → Leaves most r r'
unmoved most r r' q n e = record {
  steps = 0;
  bounded = omega arith;
  jobs = [];
  passed = subst (λ m. Passed 0 r.next_seq m []) (sym n) arrived;
  joined = ap contents e ∙ sym (append-nil (contents r.queue));
  indexed = subst IsQueue (sym e) q;
}

pub sooner : (k most : ℕ) (r r' : Receiver) → k ≤ most → Leaves k r r' → Leaves most r r'
sooner k most r r' l rest = record {
  steps = rest.steps;
  bounded = omega (arith, l, rest.bounded);
  jobs = rest.jobs;
  passed = rest.passed;
  joined = rest.joined;
  indexed = rest.indexed;
}

-- The queue takes the job of a slot, or is full.
dispatch-queue :
    (k len seq hdr_len : ℕ) (r : Receiver)
    → (dispatch k len seq hdr_len r).queue
      ≡ (enqueue_job (record { slab_idx = k; len = len; seq = seq; hdr_len = hdr_len }) r.queue).1
unfolding dispatch enqueue_job
dispatch-queue k len seq hdr_len r = ground arith

dispatch_head-queue :
    (r : Receiver)
    → (dispatch_head r).queue
      ≡ (dispatch
          (head r)
          (r.ring (head r)).len
          (r.ring (head r)).seq
          (r.ring (head r)).hdr_len
          r).queue
unfolding dispatch_head
dispatch_head-queue r = refl

enqueue_job-cases :
    (j : Job) (q : JobQueue)
    → IsQueue q
    → (contents (enqueue_job j q).1 ≡ contents q)
      ⊎ (contents (enqueue_job j q).1 ≡ contents q ++ (j ∷ []))
enqueue_job-cases j q v =
    let e : contents (enqueue_job j q).1 ≡ (pushed j (contents q)).1 =
      ap (λ (p : Bool × List Job). p.1) (enqueue_job-contents j q v).0 in
    elim (Bool-cases (length (contents q) == 16383)) [
      | inl full ↦ inl (e ∙ rw full refl)
      | inr free ↦ inr (e ∙ rw free refl)
    ]

pub then_misses :
    (k : ℕ) (r r' s : Receiver)
    → s.queue ≡ r.queue
    → s.next_seq ≡ r.next_seq
    → Leaves k (bump s) r'
    → Leaves (suc k) r r'
then_misses k r r' s e n rest = record {
  steps = suc rest.steps;
  bounded = omega (arith, rest.bounded);
  jobs = rest.jobs;
  passed =
      missed (subst (λ k. Passed rest.steps ((k + 1) % 65536) r'.next_seq rest.jobs) n rest.passed);
  joined = rest.joined ∙ ap (λ k. contents k ++ rest.jobs) e;
  indexed = rest.indexed;
}

abbrev head_job : Receiver → Job
head_job r =
    let s = r.ring (head r) in
    record { slab_idx = head r; len = s.len; seq = s.seq; hdr_len = s.hdr_len }

pub then-Leaves :
    (k : ℕ) (r r' : Receiver)
    → IsQueue r.queue
    → head_ready r ≡ true
    → Leaves k (bump (dispatch_head r)) r'
    → Leaves (suc k) r r'
then-Leaves k r r' q h rest = elim (enqueue_job-cases (head_job r) r.queue q) [
  | inl full ↦ record {
    steps = suc rest.steps;
    bounded = omega (arith, rest.bounded);
    jobs = rest.jobs;
    passed = missed on;
    joined = rest.joined ∙ ap (λ js. js ++ rest.jobs) (queued ∙ full);
    indexed = rest.indexed;
  }
  | inr free ↦ record {
    steps = suc rest.steps;
    bounded = omega (arith, rest.bounded);
    jobs = head_job r ∷ rest.jobs;
    passed = left (ground arith) on;
    joined =
        rest.joined
        ∙ ap (λ js. js ++ rest.jobs) (queued ∙ free)
        ∙ append_assoc (contents r.queue) (head_job r ∷ []) rest.jobs;
    indexed = rest.indexed;
  }
]
  where
    queued : contents (dispatch_head r).queue ≡ contents (enqueue_job (head_job r) r.queue).1
    queued = ap contents (dispatch_head-queue r ∙ dispatch-queue _ _ _ _ r)

    on : Passed rest.steps ((r.next_seq + 1) % 65536) r'.next_seq rest.jobs
    on =
        subst (λ k. Passed rest.steps ((k + 1) % 65536) r'.next_seq rest.jobs)
          (dispatch_head-next r).0 rest.passed

pub dispatch_head-IsQueue : (r : Receiver) → IsQueue r.queue → IsQueue (dispatch_head r).queue
dispatch_head-IsQueue r q =
    subst IsQueue (sym (dispatch_head-queue r ∙ dispatch-queue _ _ _ _ r))
      (enqueue_job-contents (head_job r) r.queue q).1
