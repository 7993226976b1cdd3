-- ===== src/Ts/Timing/Times.antt =====
-- gst/gst-demux/mpegtspacketizer.c: `mpegts_packetizer_pts_to_ts`, the stream time of a timestamp.
use helia.Common.{
  ℕ, ◌-◌, ◌*◌, not, ◌&&◌, Option, none, some, List, [], ◌∷◌, ltb, ◌==◌, if◌then◌else◌,
}
use helia.Parsing.{Parse, parsed, ◌>>=◌}
use helia.Ts.Window.{sub64, clock_time_none}
use helia.Ts.Groups.{add64, absdiff, Group, Groups, values_at, find_group}
use helia.Ts.Clock.{Pcr, gst_second, pcr_gst_max_value, pcrtime_to_gsttime, is_valid}
use helia.Ts.Timing.{Timing, get_entry, store_entry, no_pcr_pid}
use helia.Ts.Timing.Offsets.{is_empty}

-- Without a PCR the first timestamp locks on to the last arrival.
unfoldable pub lock_null : ℕ → ℕ → ℕ → Pcr → Pcr
lock_null pts pid last_in_time pcr =
    if not (is_valid pcr.base_time) && pid == no_pcr_pid && is_valid last_in_time
    then record pcr { base_time = last_in_time; base_pcrtime = pts }
    else pcr

-- By the skew; not if the time is far from the last PCR.
unfoldable pub skewed_ts : ℕ → ℕ → Pcr → ℕ
skewed_ts pts pid pcr =
    let res = add64 pts pcr.pcroffset in
    let tmp = add64 pcr.base_time pcr.skew in
    if not (pid == no_pcr_pid) && ltb (15 * gst_second) (absdiff res pcr.last_pcrtime)
    then clock_time_none
    else if ltb pcr.base_pcrtime (add64 tmp res)
    then add64 res (sub64 tmp pcr.base_pcrtime)
    else clock_time_none

-- The group that holds the offset of the packetizer, or the last one before it.
unfoldable pub find_suitable : ℕ → Option Group → List Group → Parse (Option Group)
find_suitable offset group [] = parsed group
find_suitable offset group (tgroup ∷ groups) = do
  let rest = find_suitable offset (some tgroup) groups
  let here = do
    last ← values_at tgroup tgroup.last_value
    if ltb offset (add64 tgroup.first_offset last.offset) then parsed (some tgroup) else rest
  if ltb offset tgroup.first_offset then parsed group else here

-- By the start of a group. A timestamp more than a second before it is taken as wrapped around.
unfoldable pub ts_in_group : ℕ → Group → ℕ
ts_in_group pts g =
    let start = pcrtime_to_gsttime g.first_pcr in
    let shifted = pcrtime_to_gsttime g.pcr_offset in
    if ltb pts start
    then (if ltb gst_second (start - pts)
        then add64 (sub64 (add64 pts pcr_gst_max_value) start) shifted
        else clock_time_none)
    else add64 (sub64 pts start) shifted

abbrev pub ts_in_suitable : ℕ → Option Group → ℕ
ts_in_suitable pts none = clock_time_none
ts_in_suitable pts (some g) = if g.reset then clock_time_none else ts_in_group pts g

abbrev pub ts_in_groups : ℕ → ℕ → Option ℕ → Groups → Parse ℕ
ts_in_groups pts offset none g = do
  group ← find_suitable offset none g.groups
  parsed (ts_in_suitable pts group)
ts_in_groups pts offset (some number) g = do
  group ← find_group number g.groups
  parsed (ts_in_group pts group)

unfoldable pub pts_to_ts : ℕ → ℕ → Timing → Parse (ℕ × Timing)
pts_to_ts pts pid t = do
  looked_up ← get_entry pid t
  let e = record looked_up { pcr = lock_null pts pid t.last_in_time looked_up.pcr }
  let g = e.pcr.offsets
  let grouped = do ts ← ts_in_groups pts t.offset g.current.group g; parsed (ts, store_entry e)
  if t.calculates_skew && is_valid e.pcr.base_time
      then parsed (skewed_ts pts pid e.pcr, store_entry e)
      else if t.calculates_offset && not (is_empty g.groups)
      then grouped
      else parsed (clock_time_none, store_entry e)

-- mpegts_packetizer_get_current_time.
unfoldable pub get_current_time : ℕ → Timing → Parse (ℕ × Timing)
get_current_time pid t = do e ← get_entry pid t; pts_to_ts e.pcr.last_pcrtime pid (store_entry e)
