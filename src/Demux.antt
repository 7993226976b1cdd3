-- ===== src/Demux.antt =====
-- gst/gst-demux/tsdemux.c: the streams of the program that is played, in a build without descrambling.
-- Their times come from the packetizer behind an interface; a GstBuffer is its bytes with its times.
use helia.Common.{ℕ, ◌+◌, ◌*◌, ◌/◌, ◌%◌, ◌^◌, Bool, true, false, Option, none, some, List, [], ◌∷◌}
use helia.Parsing.{Parse, parsed}
use helia.Parsing.Gives.{Gives}
pub mod Clock
pub mod Pending
pub mod Queue
pub mod Sound
pub mod Collecting
pub mod Queued
pub mod Unit

-- PENDING_PACKET_*.
pub data PendingPacketState : Type 0 where
  empty header buffer discont : PendingPacketState

-- PendingBuffer, and the times of its GstBuffer.
pub record PendingBuffer : Type 0 where
  pub bytes : List ℕ
  pub buffer_pts : ℕ
  pub buffer_dts : ℕ
  pub pts : ℕ
  pub dts : ℕ

-- TSDemuxStream without what is for pads, segments, gaps and keyframes. `bytes` are those that were
-- written to `data`, a memory of `allocated_size`.
pub record TsDemuxStream : Type 0 where
  pub sparse : Bool
  pub pending_ts : Bool
  pub state : PendingPacketState
  pub bytes : Option (List ℕ)
  pub expected_size : ℕ
  pub current_size : ℕ
  pub allocated_size : ℕ
  pub pts : ℕ
  pub dts : ℕ
  pub raw_pts : ℕ
  pub raw_dts : ℕ
  pub discont : Bool
  pub first_pts : ℕ
  pub need_newsegment : Bool
  pub continuity_counter : ℕ
  pub pending : List PendingBuffer
  pub target_pes_substream : ℕ

-- What the streams need of the packetizer, for the PID of the program's PCR: the stream time of a
-- timestamp, and a new start for stream times. Both give a result while the packetizer is sound, and
-- leave it so.
pub record StreamClock : Type 1 where
  pub Time : Type 0
  pub Sound : Time → Type 0
  pub pts_to_ts : ℕ → Time → Parse (ℕ × Time)
  pub set_current_pcr_offset : ℕ → Time → Parse Time
  pub pts_to_ts_sound :
      (pts : ℕ) (time : Time) → Sound time → Gives (λ r. Sound (r.1)) (pts_to_ts pts time)
  pub set_current_pcr_offset_sound :
      (offset : ℕ) (time : Time) → Sound time → Gives Sound (set_current_pcr_offset offset time)

abbrev pub mpegtime_to_gsttime : ℕ → ℕ
mpegtime_to_gsttime t = t * 100000 % 2 ^ 64 / 9

abbrev pub is_empty_state : PendingPacketState → Bool
is_empty_state empty = true
is_empty_state header = false
is_empty_state buffer = false
is_empty_state discont = false
