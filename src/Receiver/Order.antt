-- ===== src/Receiver/Order.antt =====
-- rtp_receiver.cpp: packets leave the ring in the order of their sequence numbers.
use mathlib.Core.Path.{subst}
use rtp_decoder_test.Base.{
  ℕ, zero, suc, ◌+◌, ◌%◌, ◌^◌, ◌≤◌, ◌<◌, ◌≡◌, refl, sym, ap, ◌∙◌, true, false, not, ◌&&◌,
  Bool-cases, inl, inr, List, arith, ◌==◌,
}
use rtp_decoder_test.Receiver.Datagram.{rd_u16}
use rtp_decoder_test.Receiver.Queue.{ring_size}
use rtp_decoder_test.Receiver.Fifo.{IsQueue}
use rtp_decoder_test.Receiver.State.{
  Slot, Receiver, dispatch_head, skip_head, bump, head, head_ready, diff, as_int16_leb,
  force_advance, release_loop, release_in_order, fill_slot, store, begin, handle_dgram,
}
use rtp_decoder_test.Receiver.Window.{
  IsWindowed, dispatch_head-next, dispatch_head-keep, bump-dispatch_head-IsWindowed,
  skip_head-IsWindowed, fill_slot-IsWindowed,
}
use rtp_decoder_test.Receiver.Advance.{skip_head-next, handle_dgram_cases}
use rtp_decoder_test.Receiver.Passed.{
  Leaves, unmoved, sooner, then_misses, then-Leaves, dispatch_head-IsQueue,
}

-- The packets that wait are fewer than `b` numbers away.
abbrev IsNear : ℕ → Receiver → Type 0
IsNear b r = (i : ℕ) → (r.ring i).filled ≡ true → diff (r.ring i).seq r < b

-- A release leaves those that still wait one number nearer.
nearer :
    (b : ℕ) (r : Receiver)
    → IsWindowed r
    → IsNear (suc b) r
    → head_ready r ≡ true
    → IsNear b (bump (dispatch_head r))
nearer b r v near h j f =
    let (same, elsewhere) = dispatch_head-keep r v h j f in
    let filled : (r.ring j).filled ≡ true = ap (λ (s : Slot). s.filled) (sym same) ∙ f in
    omega (
      arith,
      near j filled,
      (v.kept j filled).ranged,
      elsewhere,
      ap (λ (s : Slot). s.seq) same,
      (dispatch_head-next r).0,
      v.next_lt,
    )

release_loop-Leaves :
    (fuel b : ℕ) (r : Receiver)
    → IsQueue r.queue
    → IsWindowed r
    → IsNear b r
    → Leaves b r (release_loop fuel r)
unfolding release_loop
release_loop-Leaves zero b r q v near = unmoved b r r q refl refl
release_loop-Leaves (suc fuel) zero r q v near =
    elim (Bool-cases (not (r.pending == 0) && head_ready r)) [
      | inl more ↦ absurd (ground (arith, near (head r)))
      | inr done ↦ rw done (unmoved 0 r r q refl refl)
    ]
release_loop-Leaves (suc fuel) (suc b) r q v near =
    elim (Bool-cases (not (r.pending == 0) && head_ready r)) [
      | inl more ↦
          let ready : head_ready r ≡ true = ground arith in
          rw more (
            then-Leaves b r (release_loop fuel (bump (dispatch_head r))) q ready (
              release_loop-Leaves fuel b (bump (dispatch_head r)) (dispatch_head-IsQueue r q)
                (bump-dispatch_head-IsWindowed r v ready) (nearer b r v near ready)))
      | inr done ↦ rw done (unmoved (suc b) r r q refl refl)
    ]

skip_head-ready : (r : Receiver) → head_ready r ≡ true → skip_head r ≡ bump (dispatch_head r)
unfolding skip_head
skip_head-ready r ready = rw ready refl

skip_head-missing :
    (r : Receiver)
    → head_ready r ≡ false
    → skip_head r ≡ bump (record r { net_lost_packets = r.net_lost_packets + 1 })
unfolding skip_head
skip_head-missing r missing = rw missing refl

-- A skipped head leaves, or is missed, in front of what leaves after it.
skip_head-Leaves :
    (k : ℕ) (r r' : Receiver)
    → IsQueue r.queue
    → (IsQueue (skip_head r).queue → Leaves k (skip_head r) r')
    → Leaves (suc k) r r'
skip_head-Leaves k r r' q rest = elim (Bool-cases (head_ready r)) [
  | inl ready ↦
      let e = skip_head-ready r ready in
      then-Leaves k r r' q ready (
        subst (λ x. Leaves k x r') e
          (rest (subst (λ (x : Receiver). IsQueue x.queue) (sym e) (dispatch_head-IsQueue r q))))
  | inr missing ↦
      let e = skip_head-missing r missing in
      then_misses k r r' (record r { net_lost_packets = r.net_lost_packets + 1 }) refl refl
        (subst (λ x. Leaves k x r') e (rest (subst (λ (x : Receiver). IsQueue x.queue) (sym e) q)))
]

force_advance-far :
    (fuel seq : ℕ) (r : Receiver)
    → as_int16_leb r.jitter_depth (diff seq r) ≡ true
    → force_advance (suc fuel) seq r ≡ force_advance fuel seq (skip_head r)
unfolding force_advance
force_advance-far fuel seq r far = rw far refl

force_advance-ended :
    (fuel seq : ℕ) (r : Receiver)
    → as_int16_leb r.jitter_depth (diff seq r) ≡ false
    → force_advance (suc fuel) seq r ≡ r
unfolding force_advance
force_advance-ended fuel seq r near = rw near refl

skip_head-nearer :
    (seq : ℕ) (r : Receiver)
    → IsWindowed r
    → as_int16_leb r.jitter_depth (diff seq r) ≡ true
    → (diff seq r < 32768) × (diff seq (skip_head r) + 1 ≡ diff seq r)
skip_head-nearer seq r v far = ground (arith, v.depth_pos, v.depth_le, v.next_lt, skip_head-next r)

-- While the loop gives up waiting, the packet that came is nearer with each number that is passed.
force_advance-Leaves :
    (fuel seq k b : ℕ) (r r' : Receiver)
    → IsQueue r.queue
    → IsWindowed r
    → (diff seq r < 32768 → diff seq r ≤ b)
    → (IsQueue (force_advance fuel seq r).queue → Leaves k (force_advance fuel seq r) r')
    → Leaves (b + k) r r'
unfolding force_advance
force_advance-Leaves zero seq k b r r' q v n rest = sooner k (b + k) r r' (omega arith) (rest q)
force_advance-Leaves (suc fuel) seq k zero r r' q v n rest =
    elim (Bool-cases (as_int16_leb r.jitter_depth (diff seq r))) [
      | inl far ↦ let a = skip_head-nearer seq r v far in absurd (omega (arith, a, n a.0))
      | inr near ↦ sooner k (0 + k) r r' (omega arith) (
          subst (λ (x : Receiver). IsQueue x.queue → Leaves k x r')
            (force_advance-ended fuel seq r near) rest q)
    ]
force_advance-Leaves (suc fuel) seq k (suc b) r r' q v n rest =
    elim (Bool-cases (as_int16_leb r.jitter_depth (diff seq r))) [
      | inl far ↦
          let a = skip_head-nearer seq r v far in
          sooner (suc (b + k)) (suc b + k) r r' (omega arith) (
            skip_head-Leaves (b + k) r r' q (λ q'.
              force_advance-Leaves fuel seq k b (skip_head r) r' q' (skip_head-IsWindowed r v)
                (λ l. omega (arith, a, n a.0))
                (subst (λ (x : Receiver). IsQueue x.queue → Leaves k x r')
                  (force_advance-far fuel seq r far) rest)))
      | inr near ↦ sooner k (suc b + k) r r' (omega arith) (
          subst (λ (x : Receiver). IsQueue x.queue → Leaves k x r')
            (force_advance-ended fuel seq r near) rest q)
    ]

fill_slot-Leaves :
    (fuel seq hdr len : ℕ) (dgram : List ℕ) (r : Receiver)
    → IsQueue r.queue
    → IsWindowed r
    → seq < 65536
    → hdr ≤ len
    → diff seq r < r.jitter_depth
    → r.started ≡ true
    → (r.ring (seq % ring_size)).in_worker ≡ false
    → Leaves 16384 r (release_loop fuel (fill_slot seq hdr len dgram r))
unfolding fill_slot
fill_slot-Leaves fuel seq hdr len dgram r q v s l w b free =
    let stored = fill_slot-IsWindowed seq hdr len dgram r v s l w free b in
    let rest =
      release_loop-Leaves fuel 16384 (fill_slot seq hdr len dgram r) q stored
        (λ i f. omega (arith, (stored.kept i f).near, stored.depth_le)) in
    record {
      steps = rest.steps;
      bounded = rest.bounded;
      jobs = rest.jobs;
      passed = rest.passed;
      joined = rest.joined;
      indexed = rest.indexed;
    }

store-Leaves :
    (seq hdr len : ℕ) (dgram : List ℕ) (r : Receiver)
    → IsQueue r.queue
    → IsWindowed r
    → seq < 65536
    → hdr ≤ len
    → diff seq r < r.jitter_depth
    → r.started ≡ true
    → Leaves 16384 r (store seq hdr len dgram r)
unfolding store release_in_order
store-Leaves seq hdr len dgram r q v s l w b =
    let slot = r.ring (seq % ring_size) in
    elim (Bool-cases slot.filled) [
      | inl full ↦ rw full (elim (Bool-cases (slot.seq == seq)) [
        | inl same ↦ rw same (unmoved 16384 r _ q refl refl)
        | inr alias ↦ rw alias (unmoved 16384 r _ q refl refl)
      ])
      | inr empty ↦ rw empty (elim (Bool-cases slot.in_worker) [
        | inl busy ↦ rw busy (unmoved 16384 r _ q refl refl)
        | inr free ↦ rw free (filled free)
      ])
    ]
  where
    filled :
        (r.ring (seq % ring_size)).in_worker ≡ false
        → Leaves 16384 r
            (release_loop (fill_slot seq hdr len dgram r).pending (fill_slot seq hdr len dgram r))
    filled free = fill_slot-Leaves _ seq hdr len dgram r q v s l w b free

-- Once a first packet has come, and while the packets that wait lie in the window, every datagram,
-- whatever its bytes, only adds jobs to the end of the queue, and moves the number that is waited for
-- on in steps of one, of which there are fewer than 3 * 2 ^ 14: each step passes one number, and the
-- job that leaves in it, if there is one, has that number. So the packets that a datagram sets free
-- leave in the order of their sequence numbers, of each number one at most. A packet that a full queue
-- refuses is passed like one that was missed.
pub handle_dgram-Leaves :
    (dgram : List ℕ) (r : Receiver)
    → rd_u16 dgram 2 < 65536
    → IsWindowed r
    → IsQueue r.queue
    → r.started ≡ true
    → Leaves 49151 r (handle_dgram dgram r)
handle_dgram-Leaves dgram r s v q started =
    handle_dgram_cases (λ x. Leaves 49151 r x) dgram r s v (unmoved 49151 r r q refl refl)
      (subst (λ x. Leaves 49151 r x) (sym same) (unmoved 49151 r r q refl refl))
      (λ hdr len r' e v' l w b.
        force_advance-Leaves (2 ^ 16) seq 16384 32767 r (store seq hdr len dgram r') q v
          (λ n. omega (arith, n))
          (subst (λ (x : Receiver). IsQueue x.queue → Leaves 16384 x (store seq hdr len dgram r'))
            (e ∙ ap (force_advance (2 ^ 16) seq) same)
            (λ q'. store-Leaves seq hdr len dgram r' q' v' s l w b)))
  where
    seq : ℕ
    seq = rd_u16 dgram 2

    same : begin seq r ≡ r
    same = ground arith
