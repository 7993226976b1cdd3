-- ===== src/Ts/Timing/Offsets.antt =====
-- gst/gst-demux/mpegtspacketizer.c: `mpegts_packetizer_ts_to_offset`.
use helia.Common.{
  ℕ, ◌-◌, ◌^◌, Bool, true, false, ◌&&◌, Option, none, some, List, [], ◌∷◌, ltb, leb, ◌==◌,
  if◌then◌else◌,
}
use helia.Parsing.{Parse, parsed, fault, ◌>>=◌}
use helia.Ts.Window.{sub64}
use helia.Ts.Groups.{add64, Group, Groups, Current, pending_at, values_at, find_group}
use helia.Ts.Groups.Estimate.{is_current}
use helia.Ts.Timing.{Timing, Entry, get_entry, store_entry, gsttime_to_pcrtime}

-- The groups between which a PCR lies; they are the same if it lies in one.
pub record Neighbours : Type 0 where
  pub prevgroup : Option Group
  pub nextgroup : Group

-- The two observations between which a PCR is interpolated.
pub record Points : Type 0 where
  pub firstpcr : ℕ
  pub firstoffset : ℕ
  pub lastpcr : ℕ
  pub lastoffset : ℕ

abbrev pub is_empty : List Group → Bool
is_empty [] = true
is_empty (g ∷ groups) = false

unfoldable pub find_neighbours : ℕ → Option Group → Group → List Group → Parse Neighbours
find_neighbours querypcr prev g [] = parsed (record { prevgroup = prev; nextgroup = g })
find_neighbours querypcr prev g (h ∷ groups) = do
  let rest = find_neighbours querypcr (some g) h groups
  let here = do
    last ← values_at g g.last_value
    if leb querypcr (add64 last.pcr g.pcr_offset)
        then parsed (record { prevgroup = some g; nextgroup = g })
        else rest
  if ltb querypcr g.pcr_offset then parsed (record { prevgroup = prev; nextgroup = g }) else here

-- From the first to the last observation of a group, which for the current one is in the window.
unfoldable pub points_within : Current → Group → Parse Points
points_within c g = do
  last ← if is_current c.group g.number then pending_at c c.last else values_at g g.last_value
  parsed (record {
    firstpcr = g.pcr_offset;
    firstoffset = g.first_offset;
    lastpcr = add64 g.pcr_offset last.pcr;
    lastoffset = add64 g.first_offset last.offset;
  })

-- From the last observation of a group to the first of the next.
unfoldable pub points_between : Group → Group → Parse Points
points_between prev next = do
  last ← values_at prev prev.last_value
  parsed (record {
    firstpcr = add64 last.pcr prev.pcr_offset;
    firstoffset = add64 last.offset prev.first_offset;
    lastpcr = next.pcr_offset;
    lastoffset = next.first_offset;
  })

abbrev pub points_for : Current → Option Group → Group → Parse Points
points_for c none next = points_within c next
points_for c (some prev) next =
    if next.number == prev.number then points_within c next else points_between prev next

unfoldable pub search_points : ℕ → Current → List Group → Parse Points
search_points querypcr c [] = fault
search_points querypcr c (g ∷ groups) = do
  n ← find_neighbours querypcr none g groups
  points_for c n.prevgroup n.nextgroup

-- The current group is tried first.
abbrev pub points_at : ℕ → Option ℕ → Groups → Parse Points
points_at querypcr none g = search_points querypcr g.current g.groups
points_at querypcr (some number) g = do
  current ← find_group number g.groups
  last ← pending_at g.current g.current.last
  if leb current.pcr_offset querypcr && leb (querypcr - current.pcr_offset) last.pcr
      then points_for g.current none current
      else search_points querypcr g.current g.groups

unfoldable pub interpolate : (ℕ → ℕ → ℕ → ℕ) → ℕ → Points → ℕ
interpolate scale querypcr p =
    if p.lastpcr == p.firstpcr
    then p.firstoffset
    else add64 p.firstoffset (
        scale (sub64 querypcr p.firstpcr) (sub64 p.lastoffset p.firstoffset)
          (sub64 p.lastpcr p.firstpcr))

-- The offset by the groups of an entry; none if there are no groups.
unfoldable pub entry_offset : (ℕ → ℕ → ℕ → ℕ) → ℕ → Entry → Parse (ℕ × Timing)
entry_offset scale querypcr e =
    let g = e.pcr.offsets in
    let searched = (do
      p ← points_at querypcr g.current.group g
      parsed (interpolate scale querypcr p, store_entry e)) in
    if is_empty g.groups then parsed (2 ^ 64 - 1, store_entry e) else searched

unfoldable pub ts_to_offset : (ℕ → ℕ → ℕ → ℕ) → ℕ → ℕ → Timing → Parse (ℕ × Timing)
ts_to_offset scale ts pid t =
    let found = (do e ← get_entry pid t; entry_offset scale (gsttime_to_pcrtime scale ts) e) in
    if t.calculates_offset then found else parsed (2 ^ 64 - 1, t)
