-- ===== src/Ts/Clock/Offsets.antt =====
-- gst/gst-demux/mpegtspacketizer.c: `calculate_skew` leaves the groups of the entry alone.
use helia.Common.{ℕ, ◌+◌, ◌≡◌, refl, true, ◌||◌, leb, ltb, if-holds}
use helia.Parsing.Results.{Results, Results-parsed, Results-bind, Results-if, Results-any}
use helia.Ts.Window.{sub64, clock_time_none}
use helia.Ts.Groups.{Groups}
use helia.Ts.Clock.{
  Pcr, max_window, max_time, fill_window, slide_window, next_min, push_window, add64, abs64,
  pcrtime_to_gsttime, is_valid, resync, set_window, window_at,
}
use helia.Ts.Clock.Skew.{
  Arrival, Course, forward, wrapped, restarted, jitter, backward, lock_time, lock_pcr, course,
  follow, arrive, measure_skew, depart, measure, calculate_skew,
}

-- An entry with the groups.
abbrev Has : Groups → Pcr → Type 0
Has g pcr = pcr.offsets ≡ g

push_window-Has :
    (g : Groups) (delta send_diff : ℕ) (pcr : Pcr)
    → Has g pcr
    → Results (Has g) (push_window delta send_diff pcr)
unfolding fill_window slide_window
push_window-Has g delta send_diff pcr h =
    Results-if pcr.window_filling _ _
      (Results-bind _ _ (Results-any (set_window pcr.window pcr.window_pos delta)) (λ window u.
        Results-if (leb max_time send_diff || leb max_window (pcr.window_pos + 1)) _ _
          (Results-parsed _ h) (Results-parsed _ h)))
      (Results-bind _ _ (Results-any (window_at pcr.window pcr.window_pos)) (λ old u.
        Results-bind _ _ (Results-any (set_window pcr.window pcr.window_pos delta)) (λ window u.
          Results-bind _ _ (Results-any (next_min window old delta pcr.window_size pcr.window_min))
            (λ min u. Results-parsed _ h))))

follow-Has :
    (g : Groups) (c : Course) (pcrtime gstpcrtime time : ℕ) (pcr : Pcr)
    → Has g pcr
    → Has g (follow c pcrtime gstpcrtime time pcr).pcr
follow-Has g forward pcrtime gstpcrtime time pcr h = h
follow-Has g wrapped pcrtime gstpcrtime time pcr h = h
follow-Has g restarted pcrtime gstpcrtime time pcr h = h
follow-Has g jitter pcrtime gstpcrtime time pcr h = h
follow-Has g backward pcrtime gstpcrtime time pcr h = h

arrive-Has :
    (g : Groups) (pcrtime time : ℕ) (pcr : Pcr) → Has g pcr → Has g (arrive pcrtime time pcr).pcr
unfolding arrive lock_time lock_pcr
arrive-Has g pcrtime time pcr h =
    let gstpcrtime = add64 (pcrtime_to_gsttime pcrtime) pcr.pcroffset in
    let timed = lock_time time pcr in
    let locked = lock_pcr gstpcrtime timed in
    follow-Has g (course gstpcrtime time locked) pcrtime gstpcrtime time locked (
      if-holds (Has g) (is_valid timed.base_pcrtime) timed
        (record timed { base_pcrtime = gstpcrtime; prev_send_diff = clock_time_none })
        (if-holds (Has g) (is_valid pcr.base_time) pcr
          (record pcr { base_time = time; prev_out_time = clock_time_none }) h h)
        (if-holds (Has g) (is_valid pcr.base_time) pcr
          (record pcr { base_time = time; prev_out_time = clock_time_none }) h h))

measure-Has :
    (g : Groups) (threshold : ℕ) (a : Arrival)
    → Has g a.pcr
    → Results (λ (r : Arrival). Has g r.pcr) (measure threshold a)
unfolding measure resync
measure-Has g threshold a h =
    let delta = sub64 (sub64 a.time a.pcr.base_time) a.send_diff in
    let jumped = ltb threshold (abs64 (sub64 delta a.pcr.skew)) in
    Results-bind _ _
      (push_window-Has g _ _ _ (
        if-holds (λ (r : Arrival). Has g r.pcr) jumped
          (record a { pcr = resync a.time a.gstpcrtime true a.pcr; send_diff = 0 }) a h h))
      (λ pcr w. Results-parsed _ w)

measure_skew-Has :
    (g : Groups) (threshold : ℕ) (a : Arrival)
    → Has g a.pcr
    → Results (λ (r : Arrival). Has g r.pcr) (measure_skew threshold a)
unfolding measure_skew
measure_skew-Has g threshold a h =
    Results-if _ _ _ (Results-parsed a h) (measure-Has g threshold a h)

-- The groups of an entry are there after its skew.
pub calculate_skew-offsets :
    (scale : ℕ → ℕ → ℕ → ℕ) (threshold pcrtime time : ℕ) (pcr : Pcr)
    → Results
        (λ (r : Pcr × ℕ). r.0.offsets ≡ pcr.offsets)
        (calculate_skew scale threshold pcrtime time pcr)
unfolding calculate_skew
calculate_skew-offsets scale threshold pcrtime time pcr =
    Results-bind _ _
      (measure_skew-Has pcr.offsets threshold _ (arrive-Has pcr.offsets pcrtime time pcr refl))
      (λ a h. Results-parsed (depart scale a) h)
