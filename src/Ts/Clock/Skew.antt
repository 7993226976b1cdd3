-- ===== src/Ts/Clock/Skew.antt =====
-- gst/gst-demux/mpegtspacketizer.c: `calculate_skew`.
use helia.Common.{ℕ, ◌*◌, ◌/◌, ◌^◌, true, not, ◌&&◌, ◌||◌, ltb, ◌==◌, if◌then◌else◌}
use helia.Parsing.{Parse, parsed, ◌>>=◌}
use helia.Ts.Window.{sub64, clock_time_none}
use helia.Ts.Clock.{
  Pcr, gst_second, pcr_gst_max_value, add64, neg64, is_negative, abs64, pcrtime_to_gsttime,
  is_valid, resync, push_window,
}

-- The locals of `calculate_skew` once the PCR was followed over wraps, resets and jumps.
pub record Arrival : Type 0 where
  pub pcr : Pcr
  pub gstpcrtime : ℕ
  pub send_diff : ℕ
  pub time : ℕ

-- The first time locks on to the time.
unfoldable pub lock_time : ℕ → Pcr → Pcr
lock_time time pcr =
    if is_valid pcr.base_time
    then pcr
    else record pcr { base_time = time; prev_out_time = clock_time_none }

-- The first PCR locks on to it.
unfoldable pub lock_pcr : ℕ → Pcr → Pcr
lock_pcr gstpcrtime pcr =
    if is_valid pcr.base_pcrtime
    then pcr
    else record pcr { base_pcrtime = gstpcrtime; prev_send_diff = clock_time_none }

-- How a PCR compares with the last one: it went on, wrapped around, was reset while there is an arrival
-- time, went back by less than a second, or by more.
pub data Course : Type 0 where
  forward wrapped restarted jitter backward : Course

unfoldable pub course : ℕ → ℕ → Pcr → Course
course gstpcrtime time pcr =
    let back = sub64 pcr.last_pcrtime gstpcrtime in
    if is_valid pcr.last_pcrtime && ltb gstpcrtime pcr.last_pcrtime
    then (if ltb (pcr_gst_max_value / 2) back
        then wrapped
        else if is_valid time && ltb (15 * gst_second) back
        then restarted
        else if ltb back gst_second
        then jitter
        else backward)
    else forward

-- The PCR with another offset.
abbrev pub with_offset : ℕ → ℕ → ℕ → Pcr → Arrival
with_offset pcrtime time offset pcr =
    let gstpcrtime = add64 (pcrtime_to_gsttime pcrtime) offset in
    record {
      pcr = record pcr { pcroffset = offset };
      gstpcrtime = gstpcrtime;
      send_diff = sub64 gstpcrtime pcr.base_pcrtime;
      time = time;
    }

-- PCR wraparounds and resets.
abbrev pub follow : Course → ℕ → ℕ → ℕ → Pcr → Arrival
follow forward pcrtime gstpcrtime time pcr = record {
  pcr = pcr;
  gstpcrtime = gstpcrtime;
  send_diff = sub64 gstpcrtime pcr.base_pcrtime;
  time = time;
}
follow wrapped pcrtime gstpcrtime time pcr =
    with_offset pcrtime time (add64 pcr.pcroffset pcr_gst_max_value) pcr
follow restarted pcrtime gstpcrtime time pcr =
    with_offset pcrtime time
      (add64 pcr.pcroffset (sub64 (add64 (sub64 time pcr.base_time) pcr.base_pcrtime) gstpcrtime))
      pcr
follow jitter pcrtime gstpcrtime time pcr = record {
  pcr = pcr;
  gstpcrtime = gstpcrtime;
  send_diff = 0;
  time = clock_time_none;
}
follow backward pcrtime gstpcrtime time pcr = record {
  pcr = record pcr { base_pcrtime = clock_time_none };
  gstpcrtime = gstpcrtime;
  send_diff = 0;
  time = time;
}

-- The drift of an arrival goes to the window; one that changed too much starts over.
unfoldable pub measure : ℕ → Arrival → Parse Arrival
measure pcr_discont_threshold a = do
  let delta = sub64 (sub64 a.time a.pcr.base_time) a.send_diff
  let jumped = ltb pcr_discont_threshold (abs64 (sub64 delta a.pcr.skew))
  let started =
      if jumped then record a { pcr = resync a.time a.gstpcrtime true a.pcr; send_diff = 0 } else a
  pcr ← push_window (if jumped then 0 else delta) started.send_diff started.pcr
  parsed (record started { pcr = pcr })

-- no_skew: the time that goes out. `scale` is gst_util_uint64_scale.
unfoldable pub output_time : (ℕ → ℕ → ℕ → ℕ) → Arrival → ℕ
output_time scale a =
    let sent = add64 a.pcr.base_time a.send_diff in
    let skewed =
      if is_negative a.pcr.skew && ltb sent (neg64 a.pcr.skew) then 0 else add64 sent a.pcr.skew in
    let backwards =
      ltb a.pcr.prev_send_diff a.send_diff && ltb skewed a.pcr.prev_out_time
      || ltb a.send_diff a.pcr.prev_send_diff && ltb a.pcr.prev_out_time skewed
      || a.send_diff == a.pcr.prev_send_diff in
    if is_valid a.pcr.base_time
    then (if is_valid a.pcr.prev_out_time && is_valid a.pcr.prev_send_diff && backwards
        then scale skewed 9 (10 ^ 5)
        else skewed)
    else a.time

-- What comes before the drift is measured.
unfoldable pub arrive : ℕ → ℕ → Pcr → Arrival
arrive pcrtime time pcr =
    let gstpcrtime = add64 (pcrtime_to_gsttime pcrtime) pcr.pcroffset in
    let locked = lock_pcr gstpcrtime (lock_time time pcr) in
    let followed = follow (course gstpcrtime time locked) pcrtime gstpcrtime time locked in
    record followed { pcr = record followed.pcr { last_pcrtime = followed.gstpcrtime } }

-- No drift is measured without times, or for packets of one buffer.
unfoldable pub measure_skew : ℕ → Arrival → Parse Arrival
measure_skew pcr_discont_threshold a =
    if not (is_valid a.time)
      || not (is_valid a.pcr.base_time)
      || a.time == a.pcr.prev_in_time && is_valid a.pcr.prev_in_time
    then parsed a
    else measure pcr_discont_threshold a

-- What is remembered of an arrival.
abbrev pub depart : (ℕ → ℕ → ℕ → ℕ) → Arrival → Pcr × ℕ
depart scale a =
    let out_time = output_time scale a in
    (
      record a.pcr {
        prev_out_time = out_time;
        prev_in_time = a.time;
        prev_send_diff = a.send_diff;
      },
      out_time,
    )

unfoldable pub calculate_skew : (ℕ → ℕ → ℕ → ℕ) → ℕ → ℕ → ℕ → Pcr → Parse (Pcr × ℕ)
calculate_skew scale pcr_discont_threshold pcrtime time pcr = do
  measured ← measure_skew pcr_discont_threshold (arrive pcrtime time pcr)
  parsed (depart scale measured)
