-- ===== src/Ts/Groups/Continuity.antt =====
-- gst/gst-demux/mpegtspacketizer.c: the stream time of a group that follows another.
use helia.Common.{ℕ, ◌+◌, ◌/◌, ◌^◌, ◌≤◌, ◌<◌, arith}
use helia.Ts.Groups.{pcr_max_value, Observation, Group}
use helia.Ts.Groups.Recording.{contiguous_offset}

-- A group that follows another starts in stream time no earlier than the last observation of that one, and
-- later by a hundredth of the range of a PCR at most, whether the PCR wrapped around, was reset, jumped or
-- went on, as long as the PCRs are in range and the stream time leaves room for one range more.
pub contiguous_offset_bounds :
    (prev : Group) (last : Observation) (pcr : ℕ)
    → prev.first_pcr + last.pcr ≤ pcr_max_value
    → pcr ≤ pcr_max_value
    → prev.pcr_offset + 2 ^ 42 < 2 ^ 64
    → (prev.pcr_offset + last.pcr ≤ contiguous_offset prev last pcr)
      × (contiguous_offset prev last pcr ≤ prev.pcr_offset + last.pcr + pcr_max_value / 100 + 1)
unfolding contiguous_offset
contiguous_offset_bounds prev last pcr h l room = ground (arith, h, l, room)
