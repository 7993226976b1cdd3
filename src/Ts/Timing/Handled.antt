-- ===== src/Ts/Timing/Handled.antt =====
-- gst/gst-demux/mpegtspacketizer.c: the PCR of a packet, and the stream time of an offset.
use helia.Common.{ℕ, sym, subst, Bool, ◌&&◌}
use helia.Parsing.Gives.{Gives, Gives-parsed, Gives-bind, Gives-if}
use helia.Parsing.Results.{Gives-Results}
use helia.Ts.Groups.Sound.{IsGroups}
use helia.Ts.Groups.Recorded.{record_pcr-IsGroups}
use helia.Ts.Clock.{pcrtime_to_gsttime, is_valid}
use helia.Ts.Clock.Sliding.{calculate_skew-IsWindow}
use helia.Ts.Clock.Offsets.{calculate_skew-offsets}
use helia.Ts.Timing.{Timing, skew_entry, record_entry, handle_pcr}
use helia.Ts.Timing.Sound.{IsTiming, get_entry-IsEntry, store_entry-IsTiming, with_groups-IsEntry}

module _ (scale : ℕ → ℕ → ℕ → ℕ) (within : ℕ → ℕ → ℕ → Bool) where
  skew_entry-IsTiming :
      (pid pcr : ℕ) (t : Timing) → IsTiming t → Gives IsTiming (skew_entry scale within pid pcr t)
  unfolding skew_entry
  skew_entry-IsTiming pid pcr t v = Gives-bind _ _ (get_entry-IsEntry pid t v) (λ e w.
      Gives-bind _ _
        (Gives-Results _
          (calculate_skew-IsWindow scale t.pcr_discont_threshold pcr t.last_in_time e.pcr
            w.sound.window)
          (calculate_skew-offsets scale t.pcr_discont_threshold pcr t.last_in_time e.pcr))
        (λ r (window, same). Gives-parsed _ (
          store_entry-IsTiming (record e { pcr = r.0 })
            (record {
              sound = record { window = window; groups = subst IsGroups (sym same) w.sound.groups };
              timing = w.timing;
            }))))

  record_entry-IsTiming :
      (pid pcr offset : ℕ) (t : Timing)
      → IsTiming t
      → Gives IsTiming (record_entry scale within pid pcr offset t)
  unfolding record_entry
  record_entry-IsTiming pid pcr offset t v = Gives-bind _ _ (get_entry-IsEntry pid t v) (λ e w.
      Gives-bind _ _ (record_pcr-IsGroups scale within pcr offset e.pcr.offsets w.sound.groups)
        (λ groups h.
          let kept = with_groups-IsEntry groups e w h in
          Gives-parsed _ (
            store_entry-IsTiming
              (record e {
                pcr = record e.pcr { offsets = groups; last_pcrtime = pcrtime_to_gsttime pcr };
              })
              (record {
                sound = record {
                  window = record {
                    words = kept.sound.window.words;
                    filling = kept.sound.window.filling;
                    full = kept.sound.window.full;
                  };
                  groups = h;
                };
                timing = w.timing;
              }))))

  -- The PCR of a packet is taken into account with a result, whatever the times and rates: no access
  -- outside the window of the skew, the window of observations or the values of a group, and no dangling
  -- pointer to a group; and sound entries stay so.
  pub handle_pcr-IsTiming :
      (pid pcr offset : ℕ) (t : Timing)
      → IsTiming t
      → Gives IsTiming (handle_pcr scale within pid pcr offset t)
  unfolding handle_pcr
  handle_pcr-IsTiming pid pcr offset t v =
      Gives-bind _ _
        (Gives-if {Q = IsTiming} (t.calculates_skew && is_valid t.last_in_time) _ _
          (λ e. skew_entry-IsTiming pid pcr t v) (λ e. Gives-parsed t v))
        (λ skewed w.
          Gives-if t.calculates_offset _ _ (λ e. record_entry-IsTiming pid pcr offset skewed w)
            (λ e. Gives-parsed skewed w))
