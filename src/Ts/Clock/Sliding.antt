-- ===== src/Ts/Clock/Sliding.antt =====
-- gst/gst-demux/mpegtspacketizer.c: every arrival keeps the minimum of the window right.
use helia.Common.{
  if-holds, ℕ, ◌+◌, ◌^◌, ◌≤◌, ◌<◌, ◌≡◌, ◌≢◌, refl, sym, subst, ◌∙◌, ◌⊎◌, inl, inr, true, false, not,
  ◌||◌, ltb, leb, ◌==◌, if◌then◌else◌, arith, Bool-cases,
}
use helia.Parsing.Gives.{Gives, Gives-parsed, Gives-bind, Gives-if}
use helia.Ts.Window.{sub64, clock_time_none}
use helia.Ts.Clock.{
  Pcr, max_window, max_time, signed_key, signed_less, fill_window, slide_window, next_min,
  push_window, add64, pcrtime_to_gsttime, pcr_new, resync, is_valid, abs64,
}
use helia.Ts.Clock.Least.{
  IsLeast, IsWindow, stored_at, window_at-Gives, set_window-Gives, find_min-IsLeast,
}
use helia.Ts.Clock.Skew.{
  Arrival, Course, forward, wrapped, restarted, jitter, backward, lock_time, lock_pcr, course,
  follow, arrive, measure_skew, depart, measure, calculate_skew,
}

stored_here : (pos delta : ℕ) (window : ℕ → ℕ) → stored_at pos delta window pos ≡ delta
stored_here pos delta window = ground arith

stored_else : (pos delta k : ℕ) (window : ℕ → ℕ) → k ≢ pos → stored_at pos delta window k ≡ window k
stored_else pos delta k window h = ground (arith, h)

stored_words :
    (pos delta : ℕ) (window : ℕ → ℕ)
    → delta < 2 ^ 64
    → ((k : ℕ) → window k < 2 ^ 64)
    → (k : ℕ) → stored_at pos delta window k < 2 ^ 64
stored_words pos delta window h words k = elim (Bool-cases (k == pos)) [
  | inl e ↦ rw e h
  | inr e ↦ rw e (words k)
]

-- A bound for every place of the window after a value was stored, from those before and the value's.
stored_below :
    (pos delta bound n : ℕ) (window : ℕ → ℕ)
    → bound ≤ signed_key delta
    → ((k : ℕ) → k < n → k ≢ pos → bound ≤ signed_key (window k))
    → (k : ℕ) → k < n
    → bound ≤ signed_key (stored_at pos delta window k)
stored_below pos delta bound n window here others k h = elim (Bool-cases (k == pos)) [
  | inl e ↦ rw e here
  | inr e ↦ rw e (others k h (ground (arith, e)))
]

-- A first place more.
fill-IsLeast :
    (min pos delta : ℕ) (window : ℕ → ℕ)
    → (pos ≡ 0) ⊎ IsLeast min pos window
    → IsLeast
        (if pos + 1 == 1 || signed_less delta min then delta else min)
        (pos + 1)
        (stored_at pos delta window)
fill-IsLeast min pos delta window h = elim h [
  | inl z ↦
      let chosen : (pos + 1 == 1 || signed_less delta min) ≡ true = ground (arith, z) in
      rw chosen (record {
        below =
            stored_below pos delta (signed_key delta) (pos + 1) window (omega arith)
              λ k l n. absurd (omega (arith, l, n, z));
        place = pos;
        within = omega arith;
        there = stored_here pos delta window;
      })
  | inr least ↦ elim (Bool-cases (pos + 1 == 1 || signed_less delta min)) [
    | inl e ↦
        let smaller : signed_key delta ≤ signed_key min = ground (arith, e, least.within) in
        rw e (record {
          below =
              stored_below pos delta (signed_key delta) (pos + 1) window (omega arith)
                λ k l n. omega (arith, smaller, least.below k (omega (arith, l, n)));
          place = pos;
          within = omega arith;
          there = stored_here pos delta window;
        })
    | inr e ↦
        let larger : signed_key min ≤ signed_key delta = ground (arith, e) in
        rw e (record {
          below =
              stored_below pos delta (signed_key min) (pos + 1) window larger
                λ k l n. least.below k (omega (arith, l, n));
          place = least.place;
          within = omega (arith, least.within);
          there =
              stored_else pos delta least.place window (omega (arith, least.within)) ∙ least.there;
        })
  ]
]

fill_window-IsWindow :
    (delta send_diff : ℕ) (pcr : Pcr)
    → delta < 2 ^ 64
    → pcr.window_filling ≡ true
    → IsWindow pcr
    → Gives IsWindow (fill_window delta send_diff pcr)
unfolding fill_window
fill_window-IsWindow delta send_diff pcr h filling v =
    let (room, before) = v.filling filling in
    let words = stored_words pcr.window_pos delta pcr.window h v.words in
    let least = fill-IsLeast pcr.window_min pcr.window_pos delta pcr.window before in
    Gives-bind _ _ (set_window-Gives pcr.window pcr.window_pos delta room) λ after e.
      Gives-if (leb max_time send_diff || leb max_window (pcr.window_pos + 1)) _ _
        (λ f. Gives-parsed _ (record {
          words = subst (λ (w : ℕ → ℕ). (k : ℕ) → w k < 2 ^ 64) (sym e) words;
          filling = λ t. ground (arith, t);
          full = λ t. (
            omega arith,
            omega (arith, room),
            subst
                (λ (w : ℕ → ℕ).
                  IsLeast
                    (if pcr.window_pos + 1 == 1 || signed_less delta pcr.window_min
                      then delta
                      else pcr.window_min)
                    (pcr.window_pos + 1) w)
                (sym e) least,
          );
        }))
        λ f. Gives-parsed _ (record {
          words = subst (λ (w : ℕ → ℕ). (k : ℕ) → w k < 2 ^ 64) (sym e) words;
          filling = λ t. (
            ground (arith, f),
            inr (
                subst
                  (λ (w : ℕ → ℕ).
                    IsLeast
                      (if pcr.window_pos + 1 == 1 || signed_less delta pcr.window_min
                        then delta
                        else pcr.window_min)
                      (pcr.window_pos + 1) w)
                  (sym e) least),
          );
          full = λ t. ground (arith, t, filling);
        })

next_min-IsLeast :
    (min pos delta size : ℕ) (window : ℕ → ℕ)
    → pos < size
    → size ≤ max_window
    → delta < 2 ^ 64
    → ((k : ℕ) → window k < 2 ^ 64)
    → IsLeast min size window
    → Gives
        (λ (m : ℕ). IsLeast m size (stored_at pos delta window))
        (next_min (stored_at pos delta window) (window pos) delta size min)
unfolding next_min
next_min-IsLeast min pos delta size window inside fits h words least =
    Gives-if (not (signed_less min delta)) _ _
      (λ e.
        let smaller : signed_key delta ≤ signed_key min = ground (arith, e) in
        Gives-parsed delta (record {
          below =
              stored_below pos delta (signed_key delta) size window (omega arith)
                λ k l n. omega (arith, smaller, least.below k l);
          place = pos;
          within = inside;
          there = stored_here pos delta window;
        }))
      λ e.
        let larger : signed_key min ≤ signed_key delta = ground (arith, e) in
        Gives-if (window pos == min) _ _
          (λ f.
            let same : min ≡ window pos = ground (arith, f) in
            find_min-IsLeast (stored_at pos delta window) (window pos) size (omega arith) fits
              (stored_words pos delta window h words)
              (subst
                (λ (old : ℕ).
                  (k : ℕ) → k < size → signed_key old ≤ signed_key (stored_at pos delta window k))
                same
                (stored_below pos delta (signed_key min) size window larger
                  λ k l n. least.below k l)))
          λ f. Gives-parsed min (record {
            below =
                stored_below pos delta (signed_key min) size window larger λ k l n. least.below k l;
            place = least.place;
            within = least.within;
            there =
                stored_else pos delta least.place window
                  (λ here. ground (arith, f, subst (λ (k : ℕ). window k ≡ min) here least.there))
                ∙ least.there;
          })

slide_window-IsWindow :
    (delta : ℕ) (pcr : Pcr)
    → delta < 2 ^ 64
    → pcr.window_filling ≡ false
    → IsWindow pcr
    → Gives IsWindow (slide_window delta pcr)
unfolding slide_window
slide_window-IsWindow delta pcr h full v =
    let (inside, fits, least) = v.full full in
    let words = stored_words pcr.window_pos delta pcr.window h v.words in
    let minimum =
      next_min-IsLeast pcr.window_min pcr.window_pos delta pcr.window_size pcr.window inside fits h
        v.words least in
    Gives-bind _ _ (window_at-Gives pcr.window pcr.window_pos (omega (arith, inside, fits)))
      λ old o.
        Gives-bind _ _
          (set_window-Gives pcr.window pcr.window_pos delta (omega (arith, inside, fits)))
          λ after e.
            Gives-bind {Q = λ (m : ℕ). IsLeast m pcr.window_size after}
              (next_min after old delta pcr.window_size pcr.window_min) _ (rw (e, o) minimum)
              λ min m. Gives-parsed _ (record {
                words = subst (λ (w : ℕ → ℕ). (k : ℕ) → w k < 2 ^ 64) (sym e) words;
                filling = λ t. ground (arith, t, full);
                full = λ t. (ground (arith, inside), fits, m);
              })

-- A value for the window keeps it in order.
push_window-IsWindow :
    (delta send_diff : ℕ) (pcr : Pcr)
    → delta < 2 ^ 64
    → IsWindow pcr
    → Gives IsWindow (push_window delta send_diff pcr)
push_window-IsWindow delta send_diff pcr h v =
    Gives-if pcr.window_filling _ _ (λ e. fill_window-IsWindow delta send_diff pcr h e v)
      λ e. slide_window-IsWindow delta pcr h e v

lock_time-IsWindow : (time : ℕ) (pcr : Pcr) → IsWindow pcr → IsWindow (lock_time time pcr)
unfolding lock_time
lock_time-IsWindow time pcr v =
    if-holds IsWindow (is_valid pcr.base_time) pcr
      (record pcr { base_time = time; prev_out_time = clock_time_none }) v
      (record { words = v.words; filling = v.filling; full = v.full })

lock_pcr-IsWindow : (gstpcrtime : ℕ) (pcr : Pcr) → IsWindow pcr → IsWindow (lock_pcr gstpcrtime pcr)
unfolding lock_pcr
lock_pcr-IsWindow gstpcrtime pcr v =
    if-holds IsWindow (is_valid pcr.base_pcrtime) pcr
      (record pcr { base_pcrtime = gstpcrtime; prev_send_diff = clock_time_none }) v
      (record { words = v.words; filling = v.filling; full = v.full })

follow-IsWindow :
    (c : Course) (pcrtime gstpcrtime time : ℕ) (pcr : Pcr)
    → IsWindow pcr
    → IsWindow (follow c pcrtime gstpcrtime time pcr).pcr
follow-IsWindow forward pcrtime gstpcrtime time pcr v = v
follow-IsWindow wrapped pcrtime gstpcrtime time pcr v = record {
  words = v.words;
  filling = v.filling;
  full = v.full;
}
follow-IsWindow restarted pcrtime gstpcrtime time pcr v = record {
  words = v.words;
  filling = v.filling;
  full = v.full;
}
follow-IsWindow jitter pcrtime gstpcrtime time pcr v = v
follow-IsWindow backward pcrtime gstpcrtime time pcr v = record {
  words = v.words;
  filling = v.filling;
  full = v.full;
}

resync-IsWindow :
    (time gstpcrtime : ℕ) (pcr : Pcr) → IsWindow pcr → IsWindow (resync time gstpcrtime true pcr)
unfolding resync
resync-IsWindow time gstpcrtime pcr v = record {
  words = v.words;
  filling = λ t. (omega arith, inl refl);
  full = λ t. ground (arith, t);
}

-- A new entry of the table of observations has an empty window.
pub pcr_new-IsWindow : (pid : ℕ) → IsWindow (pcr_new pid)
unfolding pcr_new
pcr_new-IsWindow pid = record {
  words = λ k. omega arith;
  filling = λ t. (omega arith, inl refl);
  full = λ t. ground (arith, t);
}

measure-IsWindow :
    (threshold : ℕ) (a : Arrival)
    → IsWindow a.pcr
    → Gives (λ (r : Arrival). IsWindow r.pcr) (measure threshold a)
unfolding measure
measure-IsWindow threshold a v =
    let delta = sub64 (sub64 a.time a.pcr.base_time) a.send_diff in
    let jumped = ltb threshold (abs64 (sub64 delta a.pcr.skew)) in
    Gives-bind _ _
      (push_window-IsWindow _ _ _
        (if-holds (λ (d : ℕ). d < 2 ^ 64) jumped 0 delta (omega arith) (omega arith))
        (if-holds (λ (r : Arrival). IsWindow r.pcr) jumped
          (record a { pcr = resync a.time a.gstpcrtime true a.pcr; send_diff = 0 }) a
          (resync-IsWindow a.time a.gstpcrtime a.pcr v) v))
      λ pcr w. Gives-parsed _ w

arrive-IsWindow :
    (pcrtime time : ℕ) (pcr : Pcr) → IsWindow pcr → IsWindow (arrive pcrtime time pcr).pcr
unfolding arrive
arrive-IsWindow pcrtime time pcr v =
    let gstpcrtime = add64 (pcrtime_to_gsttime pcrtime) pcr.pcroffset in
    let locked = lock_pcr gstpcrtime (lock_time time pcr) in
    let w =
      follow-IsWindow (course gstpcrtime time locked) pcrtime gstpcrtime time locked
        (lock_pcr-IsWindow gstpcrtime _ (lock_time-IsWindow time pcr v)) in
    record { words = w.words; filling = w.filling; full = w.full }

measure_skew-IsWindow :
    (threshold : ℕ) (a : Arrival)
    → IsWindow a.pcr
    → Gives (λ (r : Arrival). IsWindow r.pcr) (measure_skew threshold a)
unfolding measure_skew
measure_skew-IsWindow threshold a v =
    Gives-if _ _ _ (λ e. Gives-parsed a v) λ e. measure-IsWindow threshold a v

-- Every arrival of a PCR gives an output time, without an access outside the window; it keeps
-- `window_min` a least of the drifts in the window.
pub calculate_skew-IsWindow :
    (scale : ℕ → ℕ → ℕ → ℕ) (threshold pcrtime time : ℕ) (pcr : Pcr)
    → IsWindow pcr
    → Gives (λ (r : Pcr × ℕ). IsWindow (r.0)) (calculate_skew scale threshold pcrtime time pcr)
unfolding calculate_skew
calculate_skew-IsWindow scale threshold pcrtime time pcr v =
    Gives-bind _ _ (measure_skew-IsWindow threshold _ (arrive-IsWindow pcrtime time pcr v)) λ a w.
      Gives-parsed (depart scale a) (record { words = w.words; filling = w.filling; full = w.full })
