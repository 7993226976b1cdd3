-- ===== src/Demux/Sound.antt =====
-- gst/gst-demux/tsdemux.c: what new times leave of the streams.
use helia.Common.{
  ℕ, ◌≤◌, ◌<◌, ◌≡◌, refl, false, Option, none, some, inl, inr, List, [], ◌∷◌, ◌==◌, if◌then◌else◌,
  lookup, Bool-cases, length,
}
use helia.Parsing.Gives.{Gives, Gives-parsed, Gives-bind, Gives-if, Gives-weaken}
use helia.Pes.Header.{no_timestamp}
use helia.Ts.Window.{clock_time_none}
use helia.Demux.{
  PendingPacketState, empty, header, buffer, discont, PendingBuffer, TsDemuxStream, StreamClock,
  mpegtime_to_gsttime, is_empty_state,
}
use helia.Demux.Pending.{
  Streams, first_valid, time_or, record_pts, record_dts, either_time, first_time, larger_offset,
  biggest_offset, retime_pending, retime_current, retime, all_sparse, have_observation,
  check_pending_buffers,
}

-- A stream that collects holds as many bytes as it says, in a memory that has room for them; any other
-- holds none.
abbrev pub Holds : PendingPacketState → TsDemuxStream → Type 0
Holds empty s = s.bytes ≡ none
Holds header s = s.bytes ≡ none
Holds discont s = s.bytes ≡ none
Holds buffer s =
    (bytes : List ℕ) × (s.bytes ≡ some bytes)
    × (length bytes ≡ s.current_size)
    × (s.current_size ≤ s.allocated_size)
    × (0 < s.allocated_size)

abbrev pub IsStream : TsDemuxStream → Type 0
IsStream s = Holds s.state s

-- Streams that differ only in their times.
pub record SameData (s t : TsDemuxStream) : Type 0 where
  pub state : t.state ≡ s.state
  pub bytes : t.bytes ≡ s.bytes
  pub current_size : t.current_size ≡ s.current_size
  pub allocated_size : t.allocated_size ≡ s.allocated_size
  pub continuity_counter : t.continuity_counter ≡ s.continuity_counter

abbrev pub SameFound : Option TsDemuxStream → Option TsDemuxStream → Type 0
SameFound none none = Unit {0}
SameFound none (some t) = ⊥
SameFound (some s) none = ⊥
SameFound (some s) (some t) = SameData s t

abbrev pub SameStreams : Streams → Streams → Type 0
SameStreams streams after = (pid : ℕ) → SameFound (lookup pid streams) (lookup pid after)

pub refl-SameData : (s : TsDemuxStream) → SameData s s
refl-SameData s = record {
  state = refl;
  bytes = refl;
  current_size = refl;
  allocated_size = refl;
  continuity_counter = refl;
}

refl-SameFound : (found : Option TsDemuxStream) → SameFound found found
refl-SameFound none = tt
refl-SameFound (some s) = refl-SameData s

-- All streams that can be found are sound.
abbrev pub AllStreams : Streams → Type 0
AllStreams streams = (pid : ℕ) (s : TsDemuxStream) → lookup pid streams ≡ some s → IsStream s

module _ (clock : StreamClock) where
  open clock use {Time, Sound, pts_to_ts_sound, set_current_pcr_offset_sound}

  time_or-Gives :
      (old raw : ℕ) (time : Time)
      → Sound time
      → Gives (λ r. Sound (r.1)) (time_or clock old raw time)
  time_or-Gives old raw time v =
      Gives-if (raw == no_timestamp) _ _ (λ e. Gives-parsed _ v)
        (λ e. pts_to_ts_sound (mpegtime_to_gsttime raw) time v)

  -- Recording a time of a stream.
  pub record_dts-Gives :
      (dts : ℕ) (s : TsDemuxStream) (time : Time)
      → Sound time
      → Gives (λ r. SameData s (r.0) × Sound (r.1)) (record_dts clock dts s time)
  unfolding record_dts
  record_dts-Gives dts s time v = Gives-bind _ _ (time_or-Gives clock_time_none dts time v) (λ r w.
      Gives-parsed _ (
        record {
          state = refl;
          bytes = refl;
          current_size = refl;
          allocated_size = refl;
          continuity_counter = refl;
        },
        w,
      ))

  pub record_pts-Gives :
      (pts : ℕ) (s : TsDemuxStream) (time : Time)
      → Sound time
      → Gives (λ r. SameData s (r.0) × Sound (r.1)) (record_pts clock pts s time)
  unfolding record_pts
  record_pts-Gives pts s time v = Gives-bind _ _ (time_or-Gives clock_time_none pts time v) (λ r w.
      Gives-parsed _ (
        record {
          state = refl;
          bytes = refl;
          current_size = refl;
          allocated_size = refl;
          continuity_counter = refl;
        },
        w,
      ))

  larger_offset-Gives :
      (last first : Option ℕ) (offset : ℕ) (time : Time)
      → Sound time
      → Gives (λ r. Sound (r.1)) (larger_offset clock last first offset time)
  larger_offset-Gives none first offset time v = Gives-parsed _ v
  larger_offset-Gives (some last) none offset time v = Gives-parsed _ v
  larger_offset-Gives (some last) (some first) offset time v =
      Gives-bind _ _ (pts_to_ts_sound (mpegtime_to_gsttime last) time v) (λ r w. Gives-parsed _ w)

  biggest_offset-Gives :
      (streams : Streams) (offset : ℕ) (time : Time)
      → Sound time
      → Gives (λ r. Sound (r.1)) (biggest_offset clock streams offset time)
  unfolding biggest_offset
  biggest_offset-Gives [] offset time v = Gives-parsed _ v
  biggest_offset-Gives ((pid, s) ∷ streams) offset time v =
      Gives-bind _ _
        (larger_offset-Gives
          (if is_empty_state s.state then none else either_time s.raw_dts s.raw_pts)
          (first_time s.pending) offset time v)
        (λ r w. biggest_offset-Gives streams r.0 r.1 w)

  retime_pending-Gives :
      (first : ℕ) (pending : List PendingBuffer) (time : Time)
      → Sound time
      → Gives (λ r. Sound (r.2)) (retime_pending clock first pending time)
  unfolding retime_pending
  retime_pending-Gives first [] time v = Gives-parsed _ v
  retime_pending-Gives first (pend ∷ pending) time v =
      Gives-bind _ _ (time_or-Gives pend.buffer_pts pend.pts time v) (λ a w.
        Gives-bind _ _ (time_or-Gives pend.buffer_dts pend.dts a.1 w) (λ b x.
          Gives-bind _ _
            (retime_pending-Gives (first_valid (first_valid first a.0) b.0) pending b.1 x)
            (λ c y. Gives-parsed _ y)))

  retime_current-Gives :
      (s : TsDemuxStream) (time : Time)
      → Sound time
      → Gives (λ r. SameData s (r.0) × Sound (r.1)) (retime_current clock s time)
  unfolding retime_current
  retime_current-Gives s time v = Gives-bind _ _ (time_or-Gives s.pts s.raw_pts time v) (λ a w.
      Gives-bind _ _ (time_or-Gives s.dts s.raw_dts a.1 w) (λ b x. Gives-parsed _ (
        record {
          state = refl;
          bytes = refl;
          current_size = refl;
          allocated_size = refl;
          continuity_counter = refl;
        },
        x,
      )))

  retime-Gives :
      (streams : Streams) (time : Time)
      → Sound time
      → Gives (λ r. SameStreams streams (r.0) × Sound (r.1)) (retime clock streams time)
  unfolding retime lookup
  retime-Gives [] time v = Gives-parsed _ ((λ pid. tt), v)
  retime-Gives ((n, s) ∷ streams) time v =
      Gives-bind _ _ (retime_pending-Gives s.first_pts s.pending time v) (λ a w.
        let moved : TsDemuxStream = record s {
          pending_ts = false;
          pending = a.1;
          first_pts = a.0;
        } in
        Gives-bind _ _
          (Gives-if {Q = λ r. SameData s (r.0) × Sound (r.1)} (is_empty_state s.state) _ _
            (λ e. Gives-parsed _ (
              record {
                state = refl;
                bytes = refl;
                current_size = refl;
                allocated_size = refl;
                continuity_counter = refl;
              },
              w,
            ))
            (λ e.
              Gives-weaken (retime_current clock moved a.2) (retime_current-Gives moved a.2 w)
                (λ r (d, x). (
                  record {
                    state = d.state;
                    bytes = d.bytes;
                    current_size = d.current_size;
                    allocated_size = d.allocated_size;
                    continuity_counter = d.continuity_counter;
                  },
                  x,
                ))))
          (λ b (d, x). Gives-bind _ _ (retime-Gives streams b.1 x) (λ c (rest, y). Gives-parsed _ (
            (λ pid. elim (Bool-cases (n == pid)) [ inl e ↦ rw e d | inr e ↦ rw e (rest pid) ]),
            y,
          ))))

  pub check_pending_buffers-Gives :
      (streams : Streams) (time : Time)
      → Sound time
      → Gives
          (λ r. SameStreams streams (r.1) × Sound (r.2))
          (check_pending_buffers clock streams time)
  unfolding check_pending_buffers
  check_pending_buffers-Gives streams time v =
      Gives-if (have_observation (all_sparse streams) streams) _ _
        (λ e. Gives-bind _ _ (biggest_offset-Gives streams 0 time v) (λ a w.
          Gives-bind _ _ (set_current_pcr_offset_sound a.0 a.1 w) (λ b x.
            Gives-bind _ _ (retime-Gives streams b x) (λ c (same, y). Gives-parsed _ (same, y)))))
        (λ e. Gives-parsed _ ((λ pid. refl-SameFound (lookup pid streams)), v))
