-- ===== src/Ts/Groups/Recording.antt =====
-- gst/gst-demux/mpegtspacketizer.c: `record_pcr`.
use helia.Common.{
  ℕ, ◌+◌, ◌-◌, ◌*◌, ◌/◌, ◌%◌, ◌^◌, Bool, true, false, not, ◌&&◌, ◌||◌, Option, none, some, List, [],
  ◌∷◌, ltb, leb, ◌==◌, if◌then◌else◌,
}
use helia.Parsing.{Parse, parsed, ◌>>=◌}
use helia.Ts.Window.{sub64}
use helia.Ts.Groups.{
  add64, pcr_max_value, pcr_second, pcr_msecond, pcr_bitrate_needed, absdiff, Observation, Group,
  Current, Groups, pending_at, set_pending, values_at, find_group, replace_group, new_group,
  insert_group_after, use_group, append_to,
}
use helia.Ts.Groups.Estimate.{reevaluate}

-- Where an observation belongs if no group is current: into a group that has it, behind a group that it
-- continues, or into a new group.
pub data Place : Type 0 where
  observed : Place
  continues : Group → Place
  apart : Option ℕ → Place

unfoldable pub find_place : ℕ → ℕ → Option ℕ → List Group → Parse Place
find_place pcr offset prev [] = parsed (apart prev)
find_place pcr offset prev (g ∷ groups) = do
  last ← values_at g g.last_value
  let rest = find_place pcr offset (some g.number) groups
  if ltb offset g.first_offset
      then parsed (apart prev)
      else if leb offset (add64 last.offset g.first_offset)
      then parsed observed
      else if not g.closed && leb (sub64 (sub64 pcr g.first_pcr) last.pcr) (100 * pcr_msecond)
      then parsed (continues g)
      else rest

-- The stream time of a group that follows another: over a wraparound, a reset, a gap, or none of them.
unfoldable pub contiguous_offset : Group → Observation → ℕ → ℕ
contiguous_offset prev last pcr =
    let lastpcr = add64 prev.first_pcr last.pcr in
    add64 prev.pcr_offset (
      if ltb pcr lastpcr
      then (if ltb (pcr_max_value * 99 / 100) (lastpcr - pcr)
          then add64 (sub64 pcr_max_value prev.first_pcr) pcr
          else add64 last.pcr (100 * pcr_msecond))
      else if ltb lastpcr (sub64 pcr (500 * pcr_msecond))
      then add64 last.pcr (500 * pcr_msecond)
      else sub64 pcr prev.first_pcr)

-- `_set_current_group` for a group that follows the current one.
unfoldable pub set_contiguous_group : ℕ → ℕ → ℕ → Groups → Parse Groups
set_contiguous_group number pcr offset g = do
  prev ← find_group number g.groups
  last ← values_at prev prev.last_value
  let group = new_group g.next pcr offset (contiguous_offset prev last pcr) false
  current ← use_group group
  parsed (record {
    groups =
        insert_group_after group (some number)
          (replace_group (record prev { closed = true }) g.groups);
    current = current;
    next = g.next + 1;
  })

abbrev pub is_some : Option ℕ → Bool
is_some none = false
is_some (some number) = true

module _ (scale : ℕ → ℕ → ℕ → ℕ) (within : ℕ → ℕ → ℕ → Bool) where
  -- `_set_current_group` for a group that follows none; unless it is the first its time is estimated.
  unfoldable pub set_separate_group : Option ℕ → ℕ → ℕ → Groups → Parse Groups
  set_separate_group prev pcr offset g = do
    let group = new_group g.next pcr offset 0 (is_some prev)
    current ← use_group group
    groups ← reevaluate scale within current (insert_group_after group prev g.groups)
    parsed (record { groups = groups; current = current; next = g.next + 1 })

  abbrev pub record_place : Place → ℕ → ℕ → Groups → Parse Groups
  record_place observed pcr offset g = parsed g
  record_place (continues group) pcr offset g = do
    current ← use_group group
    parsed (record g { current = current })
  record_place (apart prev) pcr offset g = set_separate_group prev pcr offset g

  abbrev pub next_place : ℕ → ℕ
  next_place k = (k + 1) % pcr_bitrate_needed

  -- The window starts over at its last observation, and its first one ends a chain of the group.
  unfoldable pub restart : ℕ → Observation → Current → Groups → Parse Groups
  restart number first c g = do
    groups ← append_to number first g.groups
    parsed (record g {
      groups = groups;
      current = record c { prev = first; first = c.last; write = next_place c.last };
    })

  -- The bitrates of a full window and before it.
  unfoldable pub measure_bitrates : Observation → Observation → Current → Current
  measure_bitrates first last c = record c {
    cur_bitrate = scale pcr_second (sub64 last.offset first.offset) (sub64 last.pcr first.pcr);
    prev_bitrate = scale pcr_second (sub64 first.offset c.prev.offset) (sub64 first.pcr c.prev.pcr);
  }

  -- The window moves on.
  abbrev pub advance : Current → Groups → Parse Groups
  advance c g = parsed (record g { current = record c { first = next_place c.first } })

  -- A full window.
  unfoldable pub compare_bitrates : ℕ → Current → Groups → Parse Groups
  compare_bitrates number c g = do
    first ← pending_at c c.first
    last ← pending_at c c.last
    let rated = measure_bitrates first last c
    if ltb pcr_second (sub64 first.pcr c.prev.pcr)
        then (if ltb rated.prev_bitrate (absdiff rated.cur_bitrate rated.prev_bitrate * 10 % 2 ^ 64)
            then restart number first rated g
            else advance rated g)
        else advance c g

  -- An observation goes to the window.
  unfoldable pub observe : ℕ → Observation → Groups → Parse Groups
  observe number o g = do
    let c = g.current
    pending ← set_pending c c.write o
    let moved = record c {
      pending = pending;
      last_value = o;
      last = next_place c.last;
      write = next_place c.write;
    }
    if moved.write == moved.first
        then compare_bitrates number moved g
        else parsed (record g { current = moved })

  -- An observation of the current group; one that goes back, or on by more than half a second, starts a
  -- new group.
  unfoldable pub record_current : ℕ → ℕ → ℕ → Groups → Parse Groups
  record_current number pcr offset g = do
    let c = g.current
    let corpcr = sub64 pcr c.first_pcr
    last ← pending_at c c.last
    let follow = do
      groups ← append_to number last g.groups
      set_contiguous_group number pcr offset (record g { groups = groups })
    if ltb corpcr last.pcr || ltb (500 * pcr_msecond) (corpcr - last.pcr)
        then follow
        else if corpcr == c.last_value.pcr
        then parsed g
        else observe number (record { pcr = corpcr; offset = sub64 offset c.first_offset }) g

  abbrev pub record_in : Option ℕ → ℕ → ℕ → Groups → Parse Groups
  record_in none pcr offset g = do
    place ← find_place pcr offset none g.groups
    record_place place pcr offset g
  record_in (some number) pcr offset g = record_current number pcr offset g

  unfoldable pub record_pcr : ℕ → ℕ → Groups → Parse Groups
  record_pcr pcr offset g = record_in g.current.group pcr offset g
