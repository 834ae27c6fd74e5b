-- ===== src/Frame/Contract.antt =====
-- The contract of ChunkCb, FrameAbortCb and FrameReadyCb (frame_handler.hpp): what a consumer of chunks
-- may rely on, as a machine that reads the calls.
use rtp_decoder_test.Base.{
  ℕ, ◌+◌, ◌≡◌, Bool, true, false, Option, none, some, List, [], ◌∷◌, arith, ◌==◌, if◌then◌else◌,
}
use rtp_decoder_test.Frame.Calls.{
  Reason, Call, chunk, frame_abort, frame_ready, release_slab, resync_gap, resync_point, relatch,
}
use rtp_decoder_test.Frame.State.{release_all}

-- A consumer before a frame, in a frame of which it has `n` bytes, and in an aborted one.
pub data Phase : Type 0 where
  idle dead : Phase
  in_frame : ℕ → Phase

-- How a call takes the consumer on; `none` is a breach of the contract. A chunk at offset 0 begins
-- a frame, and one in a frame continues it at the offset that was reached; an abort hits a frame
-- once; a frame is reported intact only if no abort hit it, and only a begun frame is reported.
abbrev pub consume : Call → Phase → Option Phase
consume (chunk off bytes len) (in_frame n) = if off == n then some (in_frame (n + len)) else none
consume (chunk off bytes len) other = if off == 0 then some (in_frame len) else none
consume (frame_abort why) (in_frame n) = some dead
consume (frame_abort why) other = none
consume (frame_ready intact) (in_frame n) = some idle
consume (frame_ready intact) dead = if intact then none else some idle
consume (frame_ready intact) idle = none
consume (release_slab i) phase = some phase
consume (resync_gap n) phase = some phase
consume (resync_point b i) phase = some phase
consume (relatch why) phase = some phase

abbrev pub then_consume : Call → Option Phase → Option Phase
then_consume c none = none
then_consume c (some phase) = consume c phase

-- The consumer after a history of calls, the latest first.
unfoldable pub consumed : List Call → Option Phase
consumed [] = some idle
consumed (c ∷ older) = then_consume c (consumed older)

-- The consumer is in a frame exactly while an abort is armed, and has all the bytes of the chain.
abbrev pub Follows : Bool → ℕ → Option Phase → Type 0
Follows armed total none = ⊥
Follows true total (some (in_frame n)) = n ≡ total
Follows true total (some other) = ⊥
Follows false total (some (in_frame n)) = ⊥
Follows false total (some other) = Unit {0}

abbrev pub Begun : Bool → Option Phase → Type 0
Begun true o = Unit {0}
Begun false (some dead) = Unit {0}
Begun false other = ⊥

-- What each kind of call does to a consumer that follows.
pub deliver-Follows :
    (off : ℕ) (bytes : List ℕ) (len : ℕ) (armed : Bool) (o : Option Phase)
    → Follows armed off o
    → (armed ≡ false → off ≡ 0)
    → Follows true (off + len) (then_consume (chunk off bytes len) o)
deliver-Follows off bytes len armed o f w = ground arith

pub abort-Follows :
    (why : Reason) (armed : Bool) (total t : ℕ) (calls : List Call)
    → Follows armed total (consumed calls)
    → Follows false t (consumed (if armed then frame_abort why ∷ calls else calls))
unfolding consumed
abort-Follows why armed total t calls f = ground arith

pub release-Follows :
    (i : ℕ) (armed : Bool) (total : ℕ) (calls : List Call)
    → Follows armed total (consumed calls)
    → Follows armed total (consumed (release_slab i ∷ calls))
unfolding consumed
release-Follows i armed total calls f = ground arith

pub release_all-Follows :
    (is : List ℕ) (total t : ℕ) (calls : List Call)
    → Follows false total (consumed calls)
    → Follows false t (consumed (release_all is calls))
unfolding release_all
release_all-Follows [] total t calls f = ground arith
release_all-Follows (i ∷ is) total t calls f =
    release_all-Follows is total t (release_slab i ∷ calls) (release-Follows i false total calls f)
