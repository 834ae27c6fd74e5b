-- ===== src/Receiver/Ownership.antt =====
-- rtp_receiver.cpp: a slab that the worker owns is not written to, and alias drops.
use rtp_decoder_test.Base.{
  ℕ, zero, suc, ◌%◌, ◌^◌, ◌≤◌, ◌<◌, ◌≡◌, ◌≢◌, refl, sym, ap, ◌∙◌, true, false, not, ◌&&◌,
  Bool-cases, inl, inr, List, arith, ◌==◌,
}
use mathlib.Core.Path.{subst}
use rtp_decoder_test.Receiver.Datagram.{rd_u16}
use rtp_decoder_test.Receiver.Queue.{ring_size}
use rtp_decoder_test.Receiver.State.{
  Slot, Receiver, dispatch, dispatch_head, skip_head, bump, head, head_ready, diff, force_advance,
  release_loop, release_in_order, fill_slot, store, begin, handle_dgram,
}
use rtp_decoder_test.Receiver.Window.{
  IsWindowed, dispatch_head-other, skip_head-IsWindowed, fill_slot-IsWindowed,
  bump-dispatch_head-IsWindowed,
}
use rtp_decoder_test.Receiver.Advance.{begin-IsWindowed, handle_dgram_cases}

-- The worker owns slab `i` with these bytes.
abbrev pub Owns : ℕ → List ℕ → Receiver → Type 0
Owns i bytes r = ((r.ring i).in_worker ≡ true) × (r.slab i ≡ bytes)

module _ (i : ℕ) (bytes : List ℕ) where
  dispatch-slab :
      (k len seq hdr_len : ℕ) (r : Receiver) → (dispatch k len seq hdr_len r).slab i ≡ r.slab i
  unfolding dispatch
  dispatch-slab k len seq hdr_len r = ground arith

  dispatch_head-Owns :
      (r : Receiver)
      → IsWindowed r
      → head_ready r ≡ true
      → Owns i bytes r
      → Owns i bytes (bump (dispatch_head r))
  unfolding dispatch_head
  dispatch_head-Owns r v h o = (
    ap (λ (s : Slot). s.in_worker) (dispatch_head-other i r elsewhere) ∙ o.0,
    dispatch-slab _ _ _ _ r ∙ o.1,
  )
    where
      elsewhere : i ≢ head r
      elsewhere e =
          let owned : (r.ring (head r)).in_worker ≡ true =
            ap (λ k. (r.ring k).in_worker) (sym e) ∙ o.0 in
          ground (arith, (v.kept (head r) (ground arith)).free)

  skip_head-Owns : (r : Receiver) → IsWindowed r → Owns i bytes r → Owns i bytes (skip_head r)
  unfolding skip_head
  skip_head-Owns r v o = elim (Bool-cases (head_ready r)) [
    | inl ready ↦ rw ready (dispatch_head-Owns r v ready o)
    | inr missing ↦ rw missing o
  ]

  force_advance-Owns :
      (fuel seq : ℕ) (r : Receiver)
      → IsWindowed r
      → Owns i bytes r
      → Owns i bytes (force_advance fuel seq r)
  unfolding force_advance
  force_advance-Owns zero seq r v o = o
  force_advance-Owns (suc fuel) seq r v o = ground (
    arith,
    force_advance-Owns fuel seq (skip_head r) (skip_head-IsWindowed r v) (skip_head-Owns r v o),
  )

  release_loop-Owns :
      (fuel : ℕ) (r : Receiver) → IsWindowed r → Owns i bytes r → Owns i bytes (release_loop fuel r)
  unfolding release_loop
  release_loop-Owns zero r v o = o
  release_loop-Owns (suc fuel) r v o = elim (Bool-cases (not (r.pending == 0) && head_ready r)) [
    | inl more ↦ rw more (
        release_loop-Owns fuel (bump (dispatch_head r))
          (bump-dispatch_head-IsWindowed r v (ground arith))
          (dispatch_head-Owns r v (ground arith) o))
    | inr done ↦ rw done o
  ]

  fill_slot-Owns :
      (seq hdr len : ℕ) (dgram : List ℕ) (r : Receiver)
      → (r.ring (seq % ring_size)).in_worker ≡ false
      → Owns i bytes r
      → Owns i bytes (fill_slot seq hdr len dgram r)
  unfolding fill_slot
  fill_slot-Owns seq hdr len dgram r free o = ground arith

  store-Owns :
      (seq hdr len : ℕ) (dgram : List ℕ) (r : Receiver)
      → IsWindowed r
      → seq < 65536
      → hdr ≤ len
      → diff seq r < r.jitter_depth
      → r.started ≡ true
      → Owns i bytes r
      → Owns i bytes (store seq hdr len dgram r)
  unfolding store release_in_order
  store-Owns seq hdr len dgram r v s l w b o =
      let slot = r.ring (seq % ring_size) in
      elim (Bool-cases slot.filled) [
        | inl full ↦ rw full (ground arith)
        | inr empty ↦ rw empty (elim (Bool-cases slot.in_worker) [
          | inl busy ↦ rw busy o
          | inr free ↦ rw free (
              release_loop-Owns _ _ (fill_slot-IsWindowed seq hdr len dgram r v s l w free b)
                (fill_slot-Owns seq hdr len dgram r free o))
        ])
      ]

  begin-Owns : (seq : ℕ) (r : Receiver) → Owns i bytes r → Owns i bytes (begin seq r)
  begin-Owns seq r o = ground arith

  -- While the packets that wait lie in the window (IsWindowed), a slab that the worker owns stays with the
  -- worker and a datagram that arrives changes none of its bytes, whatever its header says: the packets
  -- that the frame handler holds are not overwritten.
  pub handle_dgram-Owns :
      (dgram : List ℕ) (r : Receiver)
      → rd_u16 dgram 2 < 65536
      → IsWindowed r
      → Owns i bytes r
      → Owns i bytes (handle_dgram dgram r)
  handle_dgram-Owns dgram r s v o =
      let seq = rd_u16 dgram 2 in
      let begun = begin-Owns seq r o in
      handle_dgram_cases (Owns i bytes) dgram r s v o begun (λ hdr len r' e v' l w b.
        store-Owns seq hdr len dgram r' v' s l w b (
          subst (Owns i bytes) (sym e)
            (force_advance-Owns (2 ^ 16) seq (begin seq r) (begin-IsWindowed seq r s v) begun)))

dispatch-net_lost :
    (k len seq hdr_len : ℕ) (r : Receiver)
    → (dispatch k len seq hdr_len r).net_lost_packets ≡ r.net_lost_packets
unfolding dispatch
dispatch-net_lost k len seq hdr_len r = ground arith

release_loop-net_lost :
    (fuel : ℕ) (r : Receiver) → (release_loop fuel r).net_lost_packets ≡ r.net_lost_packets
unfolding release_loop dispatch_head
release_loop-net_lost zero r = refl
release_loop-net_lost (suc fuel) r =
    let s = r.ring (head r) in
    ground (
      arith,
      release_loop-net_lost fuel (bump (dispatch_head r)),
      dispatch-net_lost (head r) s.len s.seq s.hdr_len r,
    )

-- While the packets that wait lie in the window, a further packet of the window never finds another
-- number in its slot: storing it counts no lost packet.
pub store-net_lost :
    (seq hdr len : ℕ) (dgram : List ℕ) (r : Receiver)
    → IsWindowed r
    → seq < 65536
    → diff seq r < r.jitter_depth
    → (store seq hdr len dgram r).net_lost_packets ≡ r.net_lost_packets
unfolding store release_in_order fill_slot
store-net_lost seq hdr len dgram r v s w =
    let filled = fill_slot seq hdr len dgram r in
    ground (
      arith,
      v.next_lt,
      v.depth_le,
      v.kept (seq % ring_size),
      release_loop-net_lost filled.pending filled,
    )
