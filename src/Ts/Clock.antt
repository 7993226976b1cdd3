-- ===== src/Ts/Clock.antt =====
-- gst/gst-demux/mpegtspacketizer.c: the skew between the clock of the sender and the arrival of its
-- packets. guint64 and gint64 are numbers below 2^64; a gint64 is read as a two's complement.
use helia.Common.{
  ℕ, zero, suc, ◌+◌, ◌-◌, ◌*◌, ◌/◌, ◌%◌, ◌^◌, Bool, true, false, not, ◌&&◌, ◌||◌, ltb, leb, ◌==◌,
  if◌then◌else◌,
}
use helia.Parsing.{Parse, parsed, fault, ◌>>=◌}
use helia.Ts.Window.{sub64, clock_time_none}
use helia.Ts.Groups.{Groups, no_groups}
pub use helia.Ts.Groups.{add64, pcr_max_value}
pub mod Least
pub mod Skew
pub mod Offsets
pub mod Sliding
pub mod Table

abbrev pub max_window : ℕ
max_window = 512

abbrev pub gst_second : ℕ
gst_second = 10 ^ 9

abbrev pub max_time : ℕ
max_time = 2 * gst_second

-- PCR_GST_MAX_VALUE.
abbrev pub pcr_gst_max_value : ℕ
pcr_gst_max_value = pcr_max_value * 10 ^ 6 / 27000

-- MpegTSPCR, with its groups. The array `window` has `max_window` places.
pub record Pcr : Type 0 where
  pub pid : ℕ
  pub base_time : ℕ
  pub base_pcrtime : ℕ
  pub prev_out_time : ℕ
  pub prev_in_time : ℕ
  pub last_pcrtime : ℕ
  pub window : ℕ → ℕ
  pub window_pos : ℕ
  pub window_size : ℕ
  pub window_filling : Bool
  pub window_min : ℕ
  pub skew : ℕ
  pub prev_send_diff : ℕ
  pub pcroffset : ℕ
  pub offsets : Groups

abbrev pub neg64 : ℕ → ℕ
neg64 a = (2 ^ 64 - a) % 2 ^ 64

abbrev pub is_negative : ℕ → Bool
is_negative a = leb (2 ^ 63) a

-- The order of gint64, as that of numbers.
abbrev pub signed_key : ℕ → ℕ
signed_key a = (a + 2 ^ 63) % 2 ^ 64

abbrev pub signed_less : ℕ → ℕ → Bool
signed_less a b = ltb (signed_key a) (signed_key b)

-- Division of a gint64 by a positive number, towards 0.
abbrev pub signed_div : ℕ → ℕ → ℕ
signed_div a n = if is_negative a then neg64 (neg64 a / n) else a / n

abbrev pub abs64 : ℕ → ℕ
abs64 a = if is_negative a then neg64 a else a

abbrev pub pcrtime_to_gsttime : ℕ → ℕ
pcrtime_to_gsttime t = t * 1000 % 2 ^ 64 / 27

abbrev pub is_valid : ℕ → Bool
is_valid time = not (time == clock_time_none)

-- The values that get_pcr_table gives to a new entry, the others being 0.
unfoldable pub pcr_new : ℕ → Pcr
pcr_new pid = record {
  pid = pid;
  base_time = clock_time_none;
  base_pcrtime = clock_time_none;
  prev_out_time = clock_time_none;
  prev_in_time = 0;
  last_pcrtime = clock_time_none;
  window = λ k. 0;
  window_pos = 0;
  window_size = 0;
  window_filling = true;
  window_min = 0;
  skew = 0;
  prev_send_diff = clock_time_none;
  pcroffset = 0;
  offsets = no_groups;
}

unfoldable pub resync : ℕ → ℕ → Bool → Pcr → Pcr
resync time gstpcrtime reset_skew pcr =
    let base = record pcr {
      base_time = time;
      base_pcrtime = gstpcrtime;
      prev_out_time = clock_time_none;
      prev_send_diff = clock_time_none;
    } in
    if reset_skew
    then record base {
      window_filling = true;
      window_pos = 0;
      window_min = 0;
      window_size = 0;
      skew = 0;
    }
    else base

-- A place of the array.
abbrev pub window_at : (ℕ → ℕ) → ℕ → Parse ℕ
window_at window k = if ltb k max_window then parsed (window k) else fault

abbrev pub set_window : (ℕ → ℕ) → ℕ → ℕ → Parse (ℕ → ℕ)
set_window window pos delta =
    if ltb pos max_window then parsed (λ k. if k == pos then delta else window k) else fault

-- The loop for a new minimum, with the rounds that are left; it stops at a value equal to the old one.
unfoldable pub find_min : (ℕ → ℕ) → ℕ → ℕ → ℕ → ℕ → Parse ℕ
find_min window old zero i min = parsed min
find_min window old (suc rounds) i min = do
  v ← window_at window i
  let rest = find_min window old rounds (i + 1) (if signed_less v min then v else min)
  if v == old then parsed old else rest

-- How far the window is filled, in percent, squared.
abbrev pub filled_square : ℕ → ℕ → ℕ
filled_square send_diff pos =
    let perc_time = send_diff * 100 / max_time in
    let perc_window = pos * 100 / max_window in
    let perc = if ltb perc_window perc_time then perc_time else perc_window in perc * perc

-- A value for the window while it is filled.
unfoldable pub fill_window : ℕ → ℕ → Pcr → Parse Pcr
fill_window delta send_diff pcr = do
  window ← set_window pcr.window pcr.window_pos delta
  let pos = pcr.window_pos + 1
  let min = if pos == 1 || signed_less delta pcr.window_min then delta else pcr.window_min
  let perc = filled_square send_diff pos
  let stored = record pcr { window = window; window_min = min }
  if leb max_time send_diff || leb max_window pos
      then parsed
          (record stored { window_size = pos; skew = min; window_filling = false; window_pos = 0 })
      else parsed (record stored {
        skew = signed_div (add64 (perc * min) ((10000 - perc) * pcr.skew)) 10000;
        window_size = pos + 1;
        window_pos = pos;
      })

-- The minimum after a value took the place of an old one.
unfoldable pub next_min : (ℕ → ℕ) → ℕ → ℕ → ℕ → ℕ → Parse ℕ
next_min window old delta size min =
    if not (signed_less min delta)
    then parsed delta
    else if old == min
    then find_min window old size 0 (2 ^ 63 - 1)
    else parsed min

-- A value for the window when it is full: it takes the place of the oldest.
unfoldable pub slide_window : ℕ → Pcr → Parse Pcr
slide_window delta pcr = do
  old ← window_at pcr.window pcr.window_pos
  window ← set_window pcr.window pcr.window_pos delta
  min ← next_min window old delta pcr.window_size pcr.window_min
  let pos = pcr.window_pos + 1
  parsed (record pcr {
    window = window;
    window_min = min;
    skew = signed_div (add64 min (124 * pcr.skew)) 125;
    window_pos = if leb pcr.window_size pos then 0 else pos;
  })

abbrev pub push_window : ℕ → ℕ → Pcr → Parse Pcr
push_window delta send_diff pcr =
    if pcr.window_filling then fill_window delta send_diff pcr else slide_window delta pcr
