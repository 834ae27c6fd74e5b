-- ===== src/Receiver/Fifo.antt =====
-- rtp_receiver.cpp: the queue of jobs is a bounded first-in first-out queue.
use rtp_decoder_test.Base.{
  ℕ, zero, suc, ◌+◌, ◌-◌, ◌%◌, ◌≤◌, ◌<◌, ◌≡◌, ◌≢◌, refl, sym, ap, ap₂, ◌∙◌, Bool, true, false,
  Bool-cases, inl, inr, Option, none, some, List, [], ◌∷◌, ◌++◌, arith, ◌==◌, if◌then◌else◌, length,
}
use rtp_decoder_test.Receiver.Queue.{Job, JobQueue, set, enqueue_job, dequeue_job, ring_size}

abbrev pub wrap : ℕ → ℕ
wrap i = i % ring_size

-- `n` jobs from the index `h` on.
unfoldable pub read : ℕ → ℕ → (ℕ → Job) → List Job
read zero h f = []
read (suc n) h f = f h ∷ read n (wrap (h + 1)) f

-- The indices are in range.
pub record IsQueue (q : JobQueue) : Type 0 where
  pub head_lt : q.head < ring_size
  pub tail_lt : q.tail < ring_size

-- The number of jobs in the queue, and the jobs, the first to leave first.
abbrev pub size : JobQueue → ℕ
size q = (q.tail + ring_size - q.head) % ring_size

abbrev pub contents : JobQueue → List Job
contents q = read (size q) q.head q.jobs

length-read : (n h : ℕ) (f : ℕ → Job) → length (read n h f) ≡ n
unfolding read
length-read zero h f = refl
length-read (suc n) h f = ap suc (length-read n (wrap (h + 1)) f)

read-snoc :
    (n h : ℕ) (f : ℕ → Job)
    → h < ring_size
    → read (suc n) h f ≡ read n h f ++ (f (wrap (h + n)) ∷ [])
unfolding read
read-snoc zero h f b = ap (λ k. f k ∷ []) (omega arith)
read-snoc (suc n) h f b = ap (◌∷◌ (f h)) (
    read-snoc n (wrap (h + 1)) f (omega arith)
    ∙ ap (λ k. read n (wrap (h + 1)) f ++ (f k ∷ [])) (omega arith))

set-same : (i j : ℕ) (x : Job) (f : ℕ → Job) → j ≡ i → set i x f j ≡ x
set-same i j x f e = ground arith

set-other : (i j : ℕ) (x : Job) (f : ℕ → Job) → i ≢ j → set i x f j ≡ f j
set-other i j x f d = ground arith

-- A write behind the jobs that are read.
read-set :
    (n h t : ℕ) (x : Job) (f : ℕ → Job)
    → h < ring_size
    → t < ring_size
    → n ≤ (t + ring_size - h) % ring_size
    → read n h (set t x f) ≡ read n h f
unfolding read
read-set zero h t x f a b c = refl
read-set (suc n) h t x f a b c =
    ap₂ ◌∷◌ (set-other t h x f (λ e. omega arith))
      (read-set n (wrap (h + 1)) t x f (omega arith) b (omega arith))

-- What an enqueue and a dequeue do to a bounded queue of jobs.
abbrev pub pushed : Job → List Job → Bool × List Job
pushed j js = if length js == 16383 then (false, js) else (true, js ++ (j ∷ []))

abbrev pub popped : List Job → Option (Job × List Job)
popped [] = none
popped (j ∷ js) = some (j, js)

enqueue-full : (q : JobQueue) → IsQueue q → (wrap (q.tail + 1) == q.head) ≡ (size q == 16383)
enqueue-full q v = ground (arith, v.head_lt, v.tail_lt)

-- The ring of jobs is a first-in first-out queue of at most 16383 jobs: an enqueue adds the job at
-- the end and succeeds unless 16383 jobs are queued, in which case it changes nothing, and the
-- indices stay in range.
pub enqueue_job-contents :
    (j : Job) (q : JobQueue)
    → IsQueue q
    → (((enqueue_job j q).0, contents (enqueue_job j q).1) ≡ pushed j (contents q))
      × IsQueue (enqueue_job j q).1
unfolding enqueue_job
enqueue_job-contents j q v = elim (Bool-cases (wrap (q.tail + 1) == q.head)) [
  | inl full ↦
      rw full
        (rw (length-read (size q) q.head q.jobs) (rw (sym (enqueue-full q v) ∙ full) (refl, v)))
  | inr free ↦ rw free (
      rw (length-read (size q) q.head q.jobs)
        (rw (sym (enqueue-full q v) ∙ free) (ap (λ js. (true, js)) (grown free), wrapped)))
]
  where
    wrapped : IsQueue (record q { jobs = set q.tail j q.jobs; tail = wrap (q.tail + 1) })
    wrapped = record { head_lt = v.head_lt; tail_lt = omega arith }

    grown :
        (wrap (q.tail + 1) == q.head) ≡ false
        → contents (record q { jobs = set q.tail j q.jobs; tail = wrap (q.tail + 1) })
          ≡ contents q ++ (j ∷ [])
    grown free =
        ap (λ n. read n q.head (set q.tail j q.jobs)) (ground (arith, v.head_lt, v.tail_lt))
        ∙ read-snoc (size q) q.head (set q.tail j q.jobs) v.head_lt
        ∙ ap₂ (λ js (x : Job). js ++ (x ∷ []))
            (read-set (size q) q.head q.tail j q.jobs v.head_lt v.tail_lt (omega arith))
            (set-same q.tail (wrap (q.head + size q)) j q.jobs
              (omega (arith, v.head_lt, v.tail_lt)))

-- A dequeue takes the first job, and fails where none is queued.
pub dequeue_job-contents :
    (q : JobQueue)
    → IsQueue q
    → elim (dequeue_job q) [ none ↦ none | some (j, q') ↦ some (j, contents q') ]
      ≡ popped (contents q)
unfolding dequeue_job read
dequeue_job-contents q v = elim (Bool-cases (q.head == q.tail)) [
  | inl empty ↦ rw empty (sym (ap popped (shrunk 0 (ground (arith, v.head_lt, v.tail_lt)))))
  | inr more ↦ rw more (
      sym (
        ap popped (
          shrunk (suc (size (record q { head = wrap (q.head + 1) })))
            (ground (arith, v.head_lt, v.tail_lt)))))
]
  where
    shrunk : (n : ℕ) → size q ≡ n → contents q ≡ read n q.head q.jobs
    shrunk n e = ap (λ k. read k q.head q.jobs) e
