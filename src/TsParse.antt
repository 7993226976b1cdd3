-- ===== src/TsParse.antt =====
-- gst/gst-demux/mpegtsparse.c: the parser element, which hands buffers on with the times of their PCRs.
-- A GstBuffer is its bytes with its times. The pads for single programs are left out.
use helia.Common.{
  ℕ, ◌+◌, ◌*◌, ◌%◌, ◌^◌, Bool, true, false, not, ◌&&◌, ◌||◌, Option, none, some, List, [], ◌∷◌, ltb,
  ◌==◌, if◌then◌else◌, length,
}
use helia.Parsing.{Parse, parsed, ◌>>=◌}
use helia.Ts.Window.{sub64, clock_time_none}
use helia.Ts.Groups.{add64}
use helia.Ts.Clock.{pcrtime_to_gsttime}
use helia.Ts.Timing.{Timing, set_pcr_discont_threshold}
use helia.Ts.Timing.Times.{pts_to_ts}
pub mod Draining
pub mod InOrder
pub mod Paced

-- The events that the element tells apart.
pub data EventType : Type 0 where
  segment eos other : EventType

pub record TimedBuffer : Type 0 where
  pub bytes : List ℕ
  pub pts : ℕ
  pub dts : ℕ

-- MpegTSParse2; no PID stands for -1. The newest of the pending buffers is the first.
pub record TsParser : Type 0 where
  pub set_timestamps : Bool
  pub smoothing_latency : ℕ
  pub base_pcr : ℕ
  pub ts_offset : ℕ
  pub current_pcr : ℕ
  pub user_pcr_pid : Option ℕ
  pub pcr_pid : Option ℕ
  pub first : Bool
  pub pending_buffers : List TimedBuffer
  pub previous_pcr : ℕ
  pub bytes_since_pcr : ℕ

-- The part of mpegts_parse_reset for times.
unfoldable pub parse_reset : TsParser → TsParser
parse_reset p = record p {
  first = true;
  pending_buffers = [];
  current_pcr = clock_time_none;
  previous_pcr = clock_time_none;
  base_pcr = clock_time_none;
  bytes_since_pcr = 0;
  pcr_pid = p.user_pcr_pid;
  ts_offset = 0;
}

-- Properties of the element; a latency is in microseconds.
unfoldable pub set_smoothing_latency : ℕ → TsParser → Timing → TsParser × Timing
set_smoothing_latency latency p t =
    (record p { smoothing_latency = 1000 * latency }, set_pcr_discont_threshold (1000 * latency) t)

unfoldable pub set_pcr_pid : Option ℕ → TsParser → TsParser
set_pcr_pid pid p = record p { user_pcr_pid = pid; pcr_pid = pid }

abbrev pub chosen_pid : ℕ → Option ℕ → ℕ
chosen_pid pid none = pid
chosen_pid pid (some chosen) = chosen

-- The PCR of a packet, if it has one.
unfoldable pub inspect_packet : ℕ → Option ℕ → TsParser → Timing → Parse (TsParser × Timing)
inspect_packet pid none p t = parsed (p, t)
inspect_packet pid (some pcr) p t =
    let chosen = chosen_pid pid p.pcr_pid in
    let with_pid = record p { pcr_pid = some chosen } in
    let observed = (do
      (ts, after) ← pts_to_ts (pcrtime_to_gsttime pcr) chosen t
      parsed (
        record with_pid {
          current_pcr = ts;
          base_pcr = if p.base_pcr == clock_time_none then ts else p.base_pcr;
        },
        after,
      )) in
    if p.current_pcr == clock_time_none
    then (if chosen == pid then observed else parsed (with_pid, t))
    else parsed (p, t)

-- What mpegts_parse_program_stopped does for times.
unfoldable pub program_stopped : TsParser → TsParser
program_stopped p = record p {
  pcr_pid = none;
  ts_offset = add64 p.ts_offset (sub64 p.current_pcr p.base_pcr);
  base_pcr = clock_time_none;
}

abbrev pub last_buffer : TimedBuffer → List TimedBuffer → TimedBuffer
last_buffer b [] = b
last_buffer b (older ∷ buffers) = last_buffer older buffers

-- From the oldest of the pending buffers to the newest.
unfoldable pub get_pending_timestamp_diff : List TimedBuffer → ℕ
get_pending_timestamp_diff [] = clock_time_none
get_pending_timestamp_diff (newest ∷ buffers) =
    let first_ts = (last_buffer newest buffers).pts in
    if first_ts == clock_time_none
    then clock_time_none
    else if newest.pts == clock_time_none
    then clock_time_none
    else sub64 newest.pts first_ts

-- The answer to a query for the latency of a live stream, TS_LATENCY or more; no maximum stays none.
unfoldable pub query_latency : TsParser → ℕ × ℕ → ℕ × ℕ
query_latency p (min_latency, max_latency) =
    let ts_latency = 100 * 10 ^ 6 in
    let extra_latency =
      if p.set_timestamps && ltb ts_latency p.smoothing_latency
      then p.smoothing_latency
      else ts_latency in
    (
      add64 min_latency extra_latency,
      if max_latency == clock_time_none then max_latency else add64 max_latency extra_latency,
    )
