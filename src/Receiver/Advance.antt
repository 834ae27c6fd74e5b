-- ===== src/Receiver/Advance.antt =====
-- rtp_receiver.cpp: the loop that gives up waiting ends, and the window is kept by every datagram.
use rtp_decoder_test.Base.{
  ℕ, zero, suc, ◌+◌, ◌-◌, ◌%◌, ◌^◌, ◌≤◌, ◌<◌, ◌≡◌, refl, ◌∙◌, true, false, not, ◌&&◌, Bool-cases,
  ◌⊎◌, inl, inr, Option-cases, List, arith, leb, ◌==◌,
}
use rtp_decoder_test.Receiver.Datagram.{parse_dgram, parse_dgram-bounds, rd_u16}
use rtp_decoder_test.Receiver.Queue.{ring_size}
use rtp_decoder_test.Receiver.State.{
  Receiver, dispatch, dispatch_head, skip_head, bump, head, head_ready, diff, force_advance,
  release_loop, release_in_order, store, begin, handle_dgram,
}
use rtp_decoder_test.Receiver.Window.{
  IsWindowed, dispatch_head-next, skip_head-IsWindowed, force_advance-IsWindowed,
  release_loop-IsWindowed, fill_slot-IsWindowed,
}

pub skip_head-next :
    (r : Receiver)
    → ((skip_head r).next_seq ≡ (r.next_seq + 1) % 65536)
      × ((skip_head r).jitter_depth ≡ r.jitter_depth)
      × ((skip_head r).started ≡ r.started)
unfolding skip_head
skip_head-next r = ground (arith, dispatch_head-next r)

-- With a jitter depth from 1 to the size of the ring, a packet whose number is not behind the one that
-- is waited for lies in the window behind the loop that gives up waiting: the loop ends by its own
-- condition, within as many rounds as the packet is ahead plus one, and 2 ^ 16 are always enough.
pub force_advance-near :
    (fuel seq : ℕ) (r : Receiver)
    → IsWindowed r
    → diff seq r < 32768
    → diff seq r < fuel
    → diff seq (force_advance fuel seq r) < r.jitter_depth
      × ((force_advance fuel seq r).jitter_depth ≡ r.jitter_depth)
      × ((force_advance fuel seq r).started ≡ r.started)
unfolding force_advance
force_advance-near zero seq r v d f = absurd (omega arith)
force_advance-near (suc fuel) seq r v d f = ground (
  arith,
  v.depth_pos,
  v.depth_le,
  v.next_lt,
  skip_head-next r,
  skip_head-IsWindowed r v,
  force_advance-near fuel seq (skip_head r),
)

pub begin-IsWindowed :
    (seq : ℕ) (r : Receiver) → seq < 65536 → IsWindowed r → IsWindowed (begin seq r)
begin-IsWindowed seq r s v = ground (arith, fresh)
  where
    fresh : r.started ≡ false → IsWindowed (record r { started = true; next_seq = seq })
    fresh e = record {
      next_lt = s;
      depth_pos = v.depth_pos;
      depth_le = v.depth_le;
      kept = λ i f. absurd (ground (arith, (v.kept i f).begun, e));
    }

-- Counting a drop changes nothing else.
counted-IsWindowed :
    (lost busy : ℕ) (r : Receiver)
    → IsWindowed r
    → IsWindowed (record r { net_lost_packets = lost; slot_busy_drops = busy })
counted-IsWindowed lost busy r v = record {
  next_lt = v.next_lt;
  depth_pos = v.depth_pos;
  depth_le = v.depth_le;
  kept = λ i f.
      let k = v.kept i f in
      record {
        placed = k.placed;
        ranged = k.ranged;
        near = k.near;
        free = k.free;
        begun = k.begun;
        sized = k.sized;
      };
}

store-IsWindowed :
    (seq hdr len : ℕ) (dgram : List ℕ) (r : Receiver)
    → IsWindowed r
    → seq < 65536
    → hdr ≤ len
    → diff seq r < r.jitter_depth
    → r.started ≡ true
    → IsWindowed (store seq hdr len dgram r)
unfolding store release_in_order
store-IsWindowed seq hdr len dgram r v s l w b =
    let slot = r.ring (seq % ring_size) in
    elim (Bool-cases slot.filled) [
      | inl full ↦
          rw full
            (ground (arith, counted-IsWindowed (r.net_lost_packets + 1) r.slot_busy_drops r v))
      | inr empty ↦ rw empty (elim (Bool-cases slot.in_worker) [
        | inl busy ↦ rw busy (counted-IsWindowed r.net_lost_packets (r.slot_busy_drops + 1) r v)
        | inr free ↦
            rw free (
              release_loop-IsWindowed _ _ (fill_slot-IsWindowed seq hdr len dgram r v s l w free b))
      ])
    ]

-- The ways through `handle_dgram`, as a rule for a property of its result: the datagram is refused, or
-- late, or a packet of the window is stored.
pub handle_dgram_cases {ℓ} :
    (Q : Receiver → Type ℓ) (dgram : List ℕ) (r : Receiver)
    → rd_u16 dgram 2 < 65536
    → IsWindowed r
    → Q r
    → Q (begin (rd_u16 dgram 2) r)
    → ((hdr len : ℕ) (r' : Receiver)
        → r' ≡ force_advance (2 ^ 16) (rd_u16 dgram 2) (begin (rd_u16 dgram 2) r)
        → IsWindowed r'
        → hdr ≤ len
        → diff (rd_u16 dgram 2) r' < r'.jitter_depth
        → r'.started ≡ true
        → Q (store (rd_u16 dgram 2) hdr len dgram r'))
    → Q (handle_dgram dgram r)
unfolding handle_dgram
handle_dgram_cases Q dgram r s v a b c = elim (Option-cases (parse_dgram dgram)) [
  | inl refused ↦ rw (refused, handle_dgram) a
  | inr ((hdr, len), e) ↦
      rw (e, handle_dgram)
        (elim (Bool-cases (leb (2 ^ 15) (diff seq begun))) [
          | inl late ↦ rw late b
          | inr ahead ↦ rw ahead (stored hdr len (parse_dgram-bounds dgram hdr len e).1 ahead)
        ])
]
  where
    seq : ℕ
    seq = rd_u16 dgram 2

    begun : Receiver
    begun = begin seq r

    v' : IsWindowed begun
    v' = begin-IsWindowed seq r s v

    began : begun.started ≡ true
    began = ground arith

    stored :
        (hdr len : ℕ)
        → hdr ≤ len
        → leb (2 ^ 15) (diff seq begun) ≡ false
        → Q (store seq hdr len dgram (force_advance (2 ^ 16) seq begun))
    stored hdr len l ahead =
        let near = force_advance-near (2 ^ 16) seq begun v' (ground arith) (omega arith) in
        c hdr len (force_advance (2 ^ 16) seq begun) refl
          (force_advance-IsWindowed (2 ^ 16) seq begun v') l (omega (arith, near.0, near.1))
          (near.2 ∙ began)

-- With a jitter depth from 1 to the size of the ring: of the packets that wait in the ring, each lies in
-- the slot of its number and at a distance below the jitter depth behind the next number, in a slab that
-- the worker does not own, and every datagram keeps it so, whatever its bytes are.
pub handle_dgram-IsWindowed :
    (dgram : List ℕ) (r : Receiver)
    → rd_u16 dgram 2 < 65536
    → IsWindowed r
    → IsWindowed (handle_dgram dgram r)
handle_dgram-IsWindowed dgram r s v =
    handle_dgram_cases IsWindowed dgram r s v v (begin-IsWindowed (rd_u16 dgram 2) r s v)
      (λ hdr len r' e v' l w b. store-IsWindowed (rd_u16 dgram 2) hdr len dgram r' v' s l w b)

dispatch-pending :
    (k len seq hdr_len : ℕ) (r : Receiver) → (dispatch k len seq hdr_len r).pending ≡ r.pending
unfolding dispatch
dispatch-pending k len seq hdr_len r = ground arith

dispatch_head-pending :
    (r : Receiver) → (dispatch_head r).pending ≡ (r.pending + 2 ^ 64 - 1) % 2 ^ 64
unfolding dispatch_head
dispatch_head-pending r =
    let s = r.ring (head r) in omega (arith, dispatch-pending (head r) s.len s.seq s.hdr_len r)

release_loop-ended :
    (fuel : ℕ) (r : Receiver)
    → r.pending ≤ fuel
    → r.pending < 2 ^ 64
    → ((release_loop fuel r).pending ≡ 0) ⊎ (head_ready (release_loop fuel r) ≡ false)
unfolding release_loop
release_loop-ended zero r f b = inl (omega arith)
release_loop-ended (suc fuel) r f b = elim (Bool-cases (not (r.pending == 0) && head_ready r)) [
  | inl more ↦ rw more (
      release_loop-ended fuel (bump (dispatch_head r)) (ground (arith, dispatch_head-pending r))
        (omega (arith, dispatch_head-pending r)))
  | inr done ↦ rw done (ground arith)
]

-- The release of packets in order ends by its own condition: behind it either no packet is pending or
-- the one that is waited for has not come.
pub release_in_order-ended :
    (r : Receiver)
    → r.pending < 2 ^ 64
    → ((release_in_order r).pending ≡ 0) ⊎ (head_ready (release_in_order r) ≡ false)
unfolding release_in_order
release_in_order-ended r b = release_loop-ended r.pending r (omega arith) b
