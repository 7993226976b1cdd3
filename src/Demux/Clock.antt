-- ===== src/Demux/Clock.antt =====
-- gst/gst-demux/tsdemux.c and mpegtspacketizer.c: the packetizer's times are those of the streams.
use helia.Common.{ℕ}
use helia.Ts.Timing.{Timing, set_current_pcr_offset}
use helia.Ts.Timing.Times.{pts_to_ts}
use helia.Ts.Timing.Sound.{IsTiming, pts_to_ts-IsTiming, set_current_pcr_offset-IsTiming}
use helia.Demux.{StreamClock}

-- The times of the PID of the program's PCR.
abbrev pub packetizer_clock : (ℕ → ℕ → ℕ → ℕ) → ℕ → StreamClock
packetizer_clock scale pcr_pid = record {
  Time = Timing;
  Sound = IsTiming;
  pts_to_ts = λ pts time. pts_to_ts pts pcr_pid time;
  set_current_pcr_offset = λ offset time. set_current_pcr_offset scale offset pcr_pid time;
  pts_to_ts_sound = λ pts time v. pts_to_ts-IsTiming pts pcr_pid time v;
  set_current_pcr_offset_sound =
      λ offset time v. set_current_pcr_offset-IsTiming scale offset pcr_pid time v;
}
