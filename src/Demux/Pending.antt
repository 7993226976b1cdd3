-- ===== src/Demux/Pending.antt =====
-- gst/gst-demux/tsdemux.c: recording timestamps, and `check_pending_buffers`.
use helia.Common.{
  ℕ, Bool, true, false, not, ◌&&◌, ◌||◌, Option, none, some, List, [], ◌∷◌, ltb, ◌==◌,
  if◌then◌else◌,
}
use helia.Parsing.{Parse, parsed, ◌>>=◌}
use helia.Pes.Header.{no_timestamp}
use helia.Ts.Window.{sub64, clock_time_none}
use helia.Ts.Groups.{add64}
use helia.Demux.{PendingBuffer, TsDemuxStream, StreamClock, mpegtime_to_gsttime, is_empty_state}

-- The program's streams by PID, in the order in which they were added.
abbrev pub Streams : Type 0
Streams = List (ℕ × TsDemuxStream)

abbrev pub all_sparse : Streams → Bool
all_sparse [] = true
all_sparse ((pid, s) ∷ streams) = s.sparse && all_sparse streams

-- Has the stream a time?
abbrev pub has_time : TsDemuxStream → Bool
has_time s =
    not (s.raw_dts == no_timestamp) && not (s.dts == clock_time_none)
    || not (s.raw_pts == no_timestamp) && not (s.pts == clock_time_none)

abbrev pub have_observation : Bool → Streams → Bool
have_observation only_sparse [] = false
have_observation only_sparse ((pid, s) ∷ streams) =
    (only_sparse || not s.sparse) && has_time s || have_observation only_sparse streams

-- A DTS, or else a PTS.
abbrev pub either_time : ℕ → ℕ → Option ℕ
either_time dts pts =
    if not (dts == no_timestamp)
    then some dts
    else if not (pts == no_timestamp)
    then some pts
    else none

-- The first one of the pending buffers.
abbrev pub first_time : List PendingBuffer → Option ℕ
first_time [] = none
first_time (pend ∷ pending) = either_time pend.dts pend.pts

abbrev pub first_valid : ℕ → ℕ → ℕ
first_valid old new = if old == clock_time_none then new else old

module _ (clock : StreamClock) where
  open clock use {Time, pts_to_ts, set_current_pcr_offset}

  -- The time of a timestamp in units of 90 kHz.
  abbrev pub mpegtime_to_ts : ℕ → Time → Parse (ℕ × Time)
  mpegtime_to_ts t time = pts_to_ts (mpegtime_to_gsttime t) time

  -- A time that is only there with a timestamp.
  abbrev pub time_or : ℕ → ℕ → Time → Parse (ℕ × Time)
  time_or old raw time = if raw == no_timestamp then parsed (old, time) else mpegtime_to_ts raw time

  unfoldable pub record_pts : ℕ → TsDemuxStream → Time → Parse (TsDemuxStream × Time)
  record_pts pts s time = do
    (ts, after) ← time_or clock_time_none pts time
    parsed (record s { raw_pts = pts; pts = ts }, after)

  unfoldable pub record_dts : ℕ → TsDemuxStream → Time → Parse (TsDemuxStream × Time)
  record_dts dts s time = do
    (ts, after) ← time_or clock_time_none dts time
    parsed (record s { raw_dts = dts; dts = ts }, after)

  -- The stream time of a last timestamp, with the time since the first pending one, if it is larger.
  abbrev pub larger_offset : Option ℕ → Option ℕ → ℕ → Time → Parse (ℕ × Time)
  larger_offset none first offset time = parsed (offset, time)
  larger_offset (some last) none offset time = parsed (offset, time)
  larger_offset (some last) (some first) offset time = do
    (ts, after) ← mpegtime_to_ts last time
    let total = add64 ts (mpegtime_to_gsttime (sub64 last first))
    parsed (if not (ts == clock_time_none) && ltb offset total then total else offset, after)

  unfoldable pub biggest_offset : Streams → ℕ → Time → Parse (ℕ × Time)
  biggest_offset [] offset time = parsed (offset, time)
  biggest_offset ((pid, s) ∷ streams) offset time = do
    let first = first_time s.pending
    let last = if is_empty_state s.state then none else either_time s.raw_dts s.raw_pts
    (larger, after) ← larger_offset last first offset time
    biggest_offset streams larger after

  -- The times of the pending buffers, and the first time of their stream.
  unfoldable pub retime_pending :
      ℕ → List PendingBuffer → Time → Parse (ℕ × List PendingBuffer × Time)
  retime_pending first [] time = parsed (first, [], time)
  retime_pending first (pend ∷ pending) time = do
    (pts, one) ← time_or pend.buffer_pts pend.pts time
    (dts, two) ← time_or pend.buffer_dts pend.dts one
    (last, rest, after) ← retime_pending (first_valid (first_valid first pts) dts) pending two
    parsed (last, record pend { buffer_pts = pts; buffer_dts = dts } ∷ rest, after)

  -- The times of a stream that has current data.
  unfoldable pub retime_current : TsDemuxStream → Time → Parse (TsDemuxStream × Time)
  retime_current s time = do
    (pts, one) ← time_or s.pts s.raw_pts time
    let first = if s.raw_pts == no_timestamp then s.first_pts else first_valid s.first_pts pts
    (dts, two) ← time_or s.dts s.raw_dts one
    parsed (
      record s {
        pts = pts;
        dts = dts;
        first_pts = if s.raw_dts == no_timestamp then first else first_valid first dts;
      },
      two,
    )

  unfoldable pub retime : Streams → Time → Parse (Streams × Time)
  retime [] time = parsed ([], time)
  retime ((pid, s) ∷ streams) time = do
    (first, pending, one) ← retime_pending s.first_pts s.pending time
    let moved = record s { pending_ts = false; pending = pending; first_pts = first }
    (new, two) ← if is_empty_state s.state then parsed (moved, one) else retime_current moved one
    (rest, after) ← retime streams two
    parsed ((pid, new) ∷ rest, after)

  -- Once a stream has a time, stream times start at the biggest offset of the pending data.
  unfoldable pub check_pending_buffers : Streams → Time → Parse (Bool × Streams × Time)
  check_pending_buffers streams time =
      let moved = (do
        (offset, one) ← biggest_offset streams 0 time
        two ← set_current_pcr_offset offset one
        (after, three) ← retime streams two
        parsed (true, after, three)) in
      if have_observation (all_sparse streams) streams then moved else parsed (false, streams, time)
