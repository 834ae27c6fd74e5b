-- ===== src/Receiver/Window.antt =====
-- rtp_receiver.cpp: the packets that wait in the ring are those of one window of sequence numbers.
use rtp_decoder_test.Base.{
  ℕ, zero, suc, ◌+◌, ◌%◌, ◌≤◌, ◌<◌, ◌≡◌, ◌≢◌, refl, sym, ap, ◌∙◌, true, false, not, ◌&&◌,
  Bool-cases, inl, inr, List, arith, ◌==◌,
}
use rtp_decoder_test.Receiver.Queue.{ring_size}
use rtp_decoder_test.Receiver.State.{
  Slot, Receiver, dispatch, dispatch_head, skip_head, bump, head, head_ready, diff, force_advance,
  release_loop, fill_slot,
}

-- What a filled slot `i` holds: a packet whose number belongs there and lies in the window behind the
-- next number, in bytes that the worker does not own.
pub record Kept (r : Receiver) (i : ℕ) : Type 0 where
  pub placed : (r.ring i).seq % ring_size ≡ i
  pub ranged : (r.ring i).seq < 65536
  pub near : diff (r.ring i).seq r < r.jitter_depth
  pub free : (r.ring i).in_worker ≡ false
  pub begun : r.started ≡ true
  pub sized : (r.ring i).hdr_len ≤ (r.ring i).len

-- The jitter depth is no more than the ring, and each filled slot is kept.
pub record IsWindowed (r : Receiver) : Type 0 where
  pub next_lt : r.next_seq < 65536
  pub depth_pos : 0 < r.jitter_depth
  pub depth_le : r.jitter_depth ≤ ring_size
  pub kept : (i : ℕ) → (r.ring i).filled ≡ true → Kept r i

dispatch-other :
    (i len seq hdr_len j : ℕ) (r : Receiver)
    → j ≢ i
    → (dispatch i len seq hdr_len r).ring j ≡ r.ring j
unfolding dispatch
dispatch-other i len seq hdr_len j r d = ground arith

dispatch-next :
    (i len seq hdr_len : ℕ) (r : Receiver)
    → ((dispatch i len seq hdr_len r).next_seq ≡ r.next_seq)
      × ((dispatch i len seq hdr_len r).jitter_depth ≡ r.jitter_depth)
      × ((dispatch i len seq hdr_len r).started ≡ r.started)
unfolding dispatch
dispatch-next i len seq hdr_len r = ground arith

pub dispatch_head-other : (j : ℕ) (r : Receiver) → j ≢ head r → (dispatch_head r).ring j ≡ r.ring j
unfolding dispatch_head
dispatch_head-other j r d =
    let s = r.ring (head r) in ground (arith, dispatch-other (head r) s.len s.seq s.hdr_len j r d)

dispatch_head-cleared : (r : Receiver) → ((dispatch_head r).ring (head r)).filled ≡ false
unfolding dispatch_head
dispatch_head-cleared r = ground arith

pub dispatch_head-next :
    (r : Receiver)
    → ((dispatch_head r).next_seq ≡ r.next_seq)
      × ((dispatch_head r).jitter_depth ≡ r.jitter_depth)
      × ((dispatch_head r).started ≡ r.started)
unfolding dispatch_head
dispatch_head-next r = let s = r.ring (head r) in dispatch-next (head r) s.len s.seq s.hdr_len r

-- The next number moves on, where no slot is filled with it any more.
bump-IsWindowed :
    (r r' : Receiver)
    → IsWindowed r
    → r'.next_seq ≡ r.next_seq
    → r'.jitter_depth ≡ r.jitter_depth
    → r'.started ≡ r.started
    → ((j : ℕ) → (r'.ring j).filled ≡ true → (r'.ring j ≡ r.ring j) × ((r.ring j).seq ≢ r.next_seq))
    → IsWindowed (bump r')
bump-IsWindowed r r' v n d st keep = record {
  next_lt = omega arith;
  depth_pos = omega (arith, v.depth_pos);
  depth_le = omega (arith, v.depth_le);
  kept = λ i f.
      let e = (keep i f).0 in
      let old : Kept r i = v.kept i (ap (λ (s : Slot). s.filled) (sym e) ∙ f) in
      let q : (r'.ring i).seq ≡ (r.ring i).seq = ap (λ (s : Slot). s.seq) e in
      record {
        placed = omega (arith, old.placed, q);
        ranged = omega (arith, old.ranged, q);
        near =
            omega (
              arith,
              old.near,
              old.ranged,
              old.placed,
              q,
              n,
              d,
              (keep i f).1,
              v.next_lt,
              v.depth_le,
            );
        free = ap (λ (s : Slot). s.in_worker) e ∙ old.free;
        begun = st ∙ old.begun;
        sized =
            omega (arith, old.sized, ap (λ (s : Slot). s.hdr_len) e, ap (λ (s : Slot). s.len) e);
      };
}

pub dispatch_head-keep :
    (r : Receiver)
    → IsWindowed r
    → head_ready r ≡ true
    → (j : ℕ) → ((dispatch_head r).ring j).filled ≡ true
    → ((dispatch_head r).ring j ≡ r.ring j) × ((r.ring j).seq ≢ r.next_seq)
dispatch_head-keep r v h j f =
    (other, λ e. elsewhere (sym (v.kept j f').placed ∙ ap (λ n. n % ring_size) e))
  where
    elsewhere : j ≢ head r
    elsewhere e =
        let filled : ((dispatch_head r).ring (head r)).filled ≡ true =
          ap (λ i. ((dispatch_head r).ring i).filled) (sym e) ∙ f in
        ground (arith, dispatch_head-cleared r)

    other : (dispatch_head r).ring j ≡ r.ring j
    other = dispatch_head-other j r elsewhere

    f' : (r.ring j).filled ≡ true
    f' = ap (λ (s : Slot). s.filled) (sym other) ∙ f

pub bump-dispatch_head-IsWindowed :
    (r : Receiver) → IsWindowed r → head_ready r ≡ true → IsWindowed (bump (dispatch_head r))
bump-dispatch_head-IsWindowed r v h =
    bump-IsWindowed r (dispatch_head r) v (dispatch_head-next r).0 (dispatch_head-next r).1
      (dispatch_head-next r).2 (dispatch_head-keep r v h)

pub skip_head-IsWindowed : (r : Receiver) → IsWindowed r → IsWindowed (skip_head r)
unfolding skip_head
skip_head-IsWindowed r v = elim (Bool-cases (head_ready r)) [
  | inl ready ↦ rw ready (bump-dispatch_head-IsWindowed r v ready)
  | inr missing ↦ rw missing (
      bump-IsWindowed r (record r { net_lost_packets = r.net_lost_packets + 1 }) v refl refl refl
        (λ j f. (refl, absent missing j f)))
]
  where
    absent : head_ready r ≡ false → (j : ℕ) → (r.ring j).filled ≡ true → (r.ring j).seq ≢ r.next_seq
    absent missing j f e =
        let at : head r ≡ j = ap (λ n. n % ring_size) (sym e) ∙ (v.kept j f).placed in
        let filled : (r.ring (head r)).filled ≡ true = ap (λ i. (r.ring i).filled) at ∙ f in
        let next : (r.ring (head r)).seq ≡ r.next_seq = ap (λ i. (r.ring i).seq) at ∙ e in
        ground arith

pub force_advance-IsWindowed :
    (fuel seq : ℕ) (r : Receiver) → IsWindowed r → IsWindowed (force_advance fuel seq r)
unfolding force_advance
force_advance-IsWindowed zero seq r v = v
force_advance-IsWindowed (suc fuel) seq r v =
    ground (arith, force_advance-IsWindowed fuel seq (skip_head r) (skip_head-IsWindowed r v))

pub release_loop-IsWindowed :
    (fuel : ℕ) (r : Receiver) → IsWindowed r → IsWindowed (release_loop fuel r)
unfolding release_loop
release_loop-IsWindowed zero r v = v
release_loop-IsWindowed (suc fuel) r v = elim (Bool-cases (not (r.pending == 0) && head_ready r)) [
  | inl more ↦ rw more (
      release_loop-IsWindowed fuel (bump (dispatch_head r))
        (bump-dispatch_head-IsWindowed r v (ground arith)))
  | inr done ↦ rw done v
]

-- A packet of the window is stored in a slot that is neither filled nor with the worker.
pub fill_slot-IsWindowed :
    (seq hdr len : ℕ) (dgram : List ℕ) (r : Receiver)
    → IsWindowed r
    → seq < 65536
    → hdr ≤ len
    → diff seq r < r.jitter_depth
    → (r.ring (seq % ring_size)).in_worker ≡ false
    → r.started ≡ true
    → IsWindowed (fill_slot seq hdr len dgram r)
unfolding fill_slot
fill_slot-IsWindowed seq hdr len dgram r v s l w free b = record {
  next_lt = v.next_lt;
  depth_pos = v.depth_pos;
  depth_le = v.depth_le;
  kept = λ i f. record {
    placed = ground (arith, v.kept i);
    ranged = ground (arith, v.kept i);
    near = ground (arith, v.kept i);
    free = ground (arith, v.kept i);
    begun = b;
    sized = ground (arith, v.kept i);
  };
}
