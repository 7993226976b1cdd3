-- ===== src/Ts/Timing.antt =====
-- gst/gst-demux/mpegtspacketizer.c: stream times of PCRs and of byte offsets. `scale` is
-- gst_util_uint64_scale, and `within` compares floats as in Ts.Groups.Estimate.
use helia.Common.{
  ℕ, zero, suc, ◌+◌, ◌-◌, ◌*◌, ◌/◌, ◌%◌, ◌^◌, Bool, true, false, not, ◌&&◌, ◌||◌, Option, none,
  some, List, [], ◌∷◌, map, ltb, leb, ◌==◌, if◌then◌else◌,
}
use helia.Parsing.{Parse, parsed, fault, ◌>>=◌}
use helia.Ts.Window.{sub64, clock_time_none}
use helia.Ts.Groups.{
  add64, absdiff, Group, Groups, Current, pending_at, values_at, find_group, close_current_group,
}
use helia.Ts.Groups.Estimate.{is_current, reevaluate}
use helia.Ts.Groups.Recording.{record_pcr}
use helia.Ts.Clock.{Pcr, gst_second, pcr_gst_max_value, pcrtime_to_gsttime, is_valid}
use helia.Ts.Clock.Skew.{calculate_skew}
use helia.Ts.Clock.Table.{Table, get_pcr_table, flush_observations}
pub mod Offsets
pub mod Handled
pub mod Sound
pub mod Times
pub mod Within

-- The fields of MpegTSPacketizer2 for times. `offset` is that of the tip of the adapter.
pub record Timing : Type 0 where
  pub table : Table
  pub calculates_skew : Bool
  pub calculates_offset : Bool
  pub offset : ℕ
  pub refoffset : ℕ
  pub nb_seen_offsets : ℕ
  pub last_in_time : ℕ
  pub pcr_discont_threshold : ℕ

-- The PID of null packets, which stands for no PCR.
abbrev pub no_pcr_pid : ℕ
no_pcr_pid = 0x1fff

-- An entry of the table with its place.
pub record Entry : Type 0 where
  pub pcr : Pcr
  pub place : ℕ
  pub timing : Timing

abbrev pub entry_in : Option Pcr → ℕ → Timing → Parse Entry
entry_in none place t = fault
entry_in (some pcr) place t = parsed (record { pcr = pcr; place = place; timing = t })

unfoldable pub get_entry : ℕ → Timing → Parse Entry
get_entry pid t =
    let (table, place) = get_pcr_table pid t.table in
    entry_in (table.observations place) place (record t { table = table })

-- The entry is written through its pointer.
abbrev pub store_entry : Entry → Timing
store_entry e = record e.timing {
  table = record e.timing.table {
    observations = λ k. if k == e.place then some e.pcr else e.timing.table.observations k;
  };
}

abbrev pub with_groups : Groups → Entry → Entry
with_groups groups e = record e { pcr = record e.pcr { offsets = groups } }

module _ (scale : ℕ → ℕ → ℕ → ℕ) (within : ℕ → ℕ → ℕ → Bool) where
  unfoldable pub skew_entry : ℕ → ℕ → Timing → Parse Timing
  skew_entry pid pcr t = do
    e ← get_entry pid t
    (after, time) ← calculate_skew scale t.pcr_discont_threshold pcr t.last_in_time e.pcr
    parsed (store_entry (record e { pcr = after }))

  unfoldable pub record_entry : ℕ → ℕ → ℕ → Timing → Parse Timing
  record_entry pid pcr offset t = do
    e ← get_entry pid t
    groups ← record_pcr scale within pcr offset e.pcr.offsets
    parsed
        (record (store_entry (record e {
          pcr = record e.pcr { offsets = groups; last_pcrtime = pcrtime_to_gsttime pcr };
        })) { nb_seen_offsets = (t.nb_seen_offsets + 1) % 2 ^ 32 })

  -- The PCR of a packet.
  unfoldable pub handle_pcr : ℕ → ℕ → ℕ → Timing → Parse Timing
  handle_pcr pid pcr offset t = do
    let skews = t.calculates_skew && is_valid t.last_in_time
    skewed ← if skews then skew_entry pid pcr t else parsed t
    if t.calculates_offset then record_entry pid pcr offset skewed else parsed skewed

  abbrev pub last_group : Group → List Group → Group
  last_group g [] = g
  last_group g (h ∷ groups) = last_group h groups

  -- The last PCR and its offset, as seen from the first, by the last group or by the window.
  abbrev pub current_point : Option ℕ → Groups → Parse (Option (ℕ × ℕ) × Groups)
  current_point none g = parsed (none, g)
  current_point (some number) g = do
    group ← find_group number g.groups
    last ← pending_at g.current g.current.last
    parsed (some (add64 group.pcr_offset last.pcr, add64 g.current.first_offset last.offset), g)

  abbrev pub last_point : ℕ → List Group → Groups → Parse (Option (ℕ × ℕ) × Groups)
  last_point refoffset [] g = parsed (none, g)
  last_point refoffset (only ∷ []) g = current_point g.current.group g
  last_point refoffset (one ∷ two ∷ more) g = do
    let final = last_group two more
    groups ← if final.estimated then reevaluate scale within g.current g.groups else parsed g.groups
    last ← find_group final.number groups
    value ← values_at last last.last_value
    parsed (
      some
          (add64 value.pcr last.pcr_offset, sub64 (add64 value.offset last.first_offset) refoffset),
      record g { groups = groups },
    )

  abbrev pub scale_point : Option (ℕ × ℕ) → ℕ → ℕ
  scale_point none bytes = clock_time_none
  scale_point (some (lastpcr, lastoffset)) bytes =
      pcrtime_to_gsttime (scale bytes lastpcr lastoffset)

  unfoldable pub offset_to_ts : ℕ → ℕ → Timing → Parse (ℕ × Timing)
  offset_to_ts offset pid t =
      let found = (do
        e ← get_entry pid t
        (point, groups) ← last_point t.refoffset e.pcr.offsets.groups e.pcr.offsets
        parsed (scale_point point (offset - t.refoffset), store_entry (with_groups groups e))) in
      if not t.calculates_offset || t.refoffset == 2 ^ 64 - 1 || ltb offset t.refoffset
      then parsed (clock_time_none, t)
      else found

-- mpegts_packetizer_set_reference_offset and mpegts_packetizer_set_pcr_discont_threshold.
unfoldable pub set_reference_offset : ℕ → Timing → Timing
set_reference_offset refoffset t = record t { refoffset = refoffset }

unfoldable pub set_pcr_discont_threshold : ℕ → Timing → Timing
set_pcr_discont_threshold threshold t = record t { pcr_discont_threshold = threshold }

-- The stream time of all groups moves, for the first to start at an offset.
abbrev pub shift_groups : ℕ → List Group → List Group
shift_groups delta groups =
    map {A = Group} {B = Group} (λ (g : Group). record g { pcr_offset = add64 g.pcr_offset delta })
      groups

abbrev pub shift_to : ℕ → List Group → List Group
shift_to pcr_offset [] = []
shift_to pcr_offset (g ∷ groups) = shift_groups (sub64 pcr_offset g.pcr_offset) (g ∷ groups)

abbrev pub shift_current : Option ℕ → ℕ → Entry → Entry
shift_current none pcr_offset e = e
shift_current (some number) pcr_offset e =
    with_groups (record e.pcr.offsets { groups = shift_to pcr_offset e.pcr.offsets.groups }) e

-- GSTTIME_TO_PCRTIME.
abbrev pub gsttime_to_pcrtime : (ℕ → ℕ → ℕ → ℕ) → ℕ → ℕ
gsttime_to_pcrtime scale t = scale t 2700 100000

unfoldable pub set_current_pcr_offset : (ℕ → ℕ → ℕ → ℕ) → ℕ → ℕ → Timing → Parse Timing
set_current_pcr_offset scale offset pid t = do
  e ← get_entry pid t
  parsed
      (store_entry (shift_current e.pcr.offsets.current.group (gsttime_to_pcrtime scale offset) e))

-- The loop that closes the current groups ends at a place without an entry.
unfoldable pub close_entries : ℕ → ℕ → Table → Parse Table
close_entries zero i t = parsed t
close_entries (suc rounds) i t = elim (t.observations i) [
  | none ↦ parsed t
  | some pcr ↦ do
    groups ← close_current_group pcr.offsets
    close_entries rounds (i + 1) (record t {
      observations =
          λ k. if k == i then some (record pcr { offsets = groups }) else t.observations k;
    })
]

-- The entry for no PCR loses its base time.
abbrev pub forget_in : Option Pcr → Option Pcr
forget_in none = none
forget_in (some pcr) = some (record pcr { base_time = clock_time_none })

abbrev pub forget_base : Table → Table
forget_base t =
    let place = t.pcrtablelut no_pcr_pid in
    record t {
      observations = λ k. if k == place then forget_in (t.observations place) else t.observations k;
    }

-- What mpegts_packetizer_flush does for times, and, if it is not hard, mpegts_packetizer_clear.
unfoldable pub flush_timing : Bool → Timing → Parse Timing
flush_timing hard t = do
  table ← close_entries 256 0 (forget_base t.table)
  parsed (record t {
    table = if hard then flush_observations table else table;
    offset = 0;
    last_in_time = clock_time_none;
  })
