-- ===== src/Ts/Groups.antt =====
-- gst/gst-demux/mpegtspacketizer.c: the groups of PCR observations of a PID, and the window of the last
-- ones. A pointer to a group is its number; the values of a group and the window are functions.
use helia.Common.{
  ℕ, ◌+◌, ◌-◌, ◌*◌, ◌/◌, ◌%◌, ◌^◌, Bool, true, false, Option, none, some, List, [], ◌∷◌, ltb, leb,
  ◌==◌, ◌&&◌, if◌then◌else◌,
}
use helia.Parsing.{Parse, parsed, fault, ◌>>=◌}
use helia.Ts.Window.{sub64}
pub mod Estimate
pub mod Recording
pub mod Sound
pub mod Safe
pub mod Recorded
pub mod Continuity

abbrev pub add64 : ℕ → ℕ → ℕ
add64 a b = (a + b) % 2 ^ 64

-- PCR_MAX_VALUE, and a second and a millisecond of a PCR.
abbrev pub pcr_max_value : ℕ
pcr_max_value = 2 ^ 33 * 300 + 298

abbrev pub pcr_second : ℕ
pcr_second = 27000000

abbrev pub pcr_msecond : ℕ
pcr_msecond = 27000

abbrev pub pcr_bitrate_needed : ℕ
pcr_bitrate_needed = 10

abbrev pub default_allocated_offset : ℕ
default_allocated_offset = 16

abbrev pub absdiff : ℕ → ℕ → ℕ
absdiff a b = if ltb a b then b - a else a - b

-- PCROffset.
pub record Observation : Type 0 where
  pub pcr : ℕ
  pub offset : ℕ

abbrev pub no_observation : Observation
no_observation = record { pcr = 0; offset = 0 }

-- PCROffsetGroup with its flags; `values` has `nb_allocated` places, and the last in use is `last_value`.
pub record Group : Type 0 where
  pub number : ℕ
  pub closed : Bool
  pub estimated : Bool
  pub reset : Bool
  pub wrapover : Bool
  pub first_pcr : ℕ
  pub first_offset : ℕ
  pub values : ℕ → Observation
  pub nb_allocated : ℕ
  pub last_value : ℕ
  pub pcr_offset : ℕ

-- PCROffsetCurrent; `pending` has `pcr_bitrate_needed` places.
pub record Current : Type 0 where
  pub group : Option ℕ
  pub pending : ℕ → Observation
  pub first_pcr : ℕ
  pub first_offset : ℕ
  pub prev : Observation
  pub last_value : Observation
  pub first : ℕ
  pub last : ℕ
  pub write : ℕ
  pub cur_bitrate : ℕ
  pub prev_bitrate : ℕ

-- The groups of an MpegTSPCR, and the number of the next one.
pub record Groups : Type 0 where
  pub groups : List Group
  pub current : Current
  pub next : ℕ

-- What memset leaves.
unfoldable pub no_current : Current
no_current = record {
  group = none;
  pending = λ k. no_observation;
  first_pcr = 0;
  first_offset = 0;
  prev = no_observation;
  last_value = no_observation;
  first = 0;
  last = 0;
  write = 0;
  cur_bitrate = 0;
  prev_bitrate = 0;
}

unfoldable pub no_groups : Groups
no_groups = record { groups = []; current = no_current; next = 0 }

abbrev pub pending_at : Current → ℕ → Parse Observation
pending_at c k = if ltb k pcr_bitrate_needed then parsed (c.pending k) else fault

abbrev pub set_pending : Current → ℕ → Observation → Parse (ℕ → Observation)
set_pending c k o =
    if ltb k pcr_bitrate_needed then parsed (λ n. if n == k then o else c.pending n) else fault

abbrev pub values_at : Group → ℕ → Parse Observation
values_at g k = if ltb k g.nb_allocated then parsed (g.values k) else fault

-- The group behind a pointer.
unfoldable pub find_group : ℕ → List Group → Parse Group
find_group number [] = fault
find_group number (g ∷ groups) = if g.number == number then parsed g else find_group number groups

-- A write through the pointer to a group.
unfoldable pub replace_group : Group → List Group → List Group
replace_group new [] = []
replace_group new (g ∷ groups) =
    let rest = replace_group new groups in if g.number == new.number then new ∷ groups else g ∷ rest

unfoldable pub new_group : ℕ → ℕ → ℕ → ℕ → Bool → Group
new_group number pcr offset pcr_offset estimated = record {
  number = number;
  closed = false;
  estimated = estimated;
  reset = false;
  wrapover = false;
  first_pcr = pcr;
  first_offset = offset;
  values = λ k. no_observation;
  nb_allocated = default_allocated_offset;
  last_value = 0;
  pcr_offset = pcr_offset;
}

-- The list with a group behind the one with the number, or `none` if that is not in the list.
unfoldable pub insert_behind : Group → ℕ → List Group → Option (List Group)
insert_behind group number [] = none
insert_behind group number (g ∷ groups) =
    let rest = insert_behind group number groups in
    if g.number == number
    then some (g ∷ group ∷ groups)
    else elim rest [ none ↦ none | some inserted ↦ some (g ∷ inserted) ]

abbrev pub or_first : Group → List Group → Option (List Group) → List Group
or_first group groups none = group ∷ groups
or_first group groups (some inserted) = inserted

abbrev pub insert_group_after : Group → Option ℕ → List Group → List Group
insert_group_after group none groups = group ∷ groups
insert_group_after group (some number) groups =
    or_first group groups (insert_behind group number groups)

unfoldable pub use_group : Group → Parse Current
use_group group = do
  last ← values_at group group.last_value
  parsed (record no_current {
    group = some group.number;
    pending = λ k. if k == 0 then last else no_observation;
    last_value = last;
    write = 1;
    prev = last;
    first_pcr = group.first_pcr;
    first_offset = group.first_offset;
  })

-- The values grow by `default_allocated_offset` places when they are full.
unfoldable pub append_group_values : Observation → Group → Parse Group
append_group_values o group = do
  last ← values_at group group.last_value
  let place = group.last_value + 1
  let allocated =
      if group.nb_allocated == place
      then group.nb_allocated + default_allocated_offset
      else group.nb_allocated
  if last.offset == o.offset && last.pcr == o.pcr
      then parsed group
      else if ltb place allocated
      then parsed (record group {
        values = λ k. if k == place then o else group.values k;
        nb_allocated = allocated;
        last_value = place;
      })
      else fault

unfoldable pub append_to : ℕ → Observation → List Group → Parse (List Group)
append_to number o groups = do
  group ← find_group number groups
  appended ← append_group_values o group
  parsed (replace_group appended groups)

-- Closing the current group without a next one.
abbrev pub close_with : Option ℕ → Groups → Parse Groups
close_with none g = parsed g
close_with (some number) g = do
  last ← pending_at g.current g.current.last
  groups ← append_to number last g.groups
  parsed (record g { groups = groups; current = no_current })

unfoldable pub close_current_group : Groups → Parse Groups
close_current_group g = close_with g.current.group g
