-- ===== src/Ts/Timing/Within.antt =====
-- gst/gst-demux/mpegtspacketizer.c: a time within the current group is given an offset within it.
use helia.Common.{
  ℕ, ◌+◌, ◌-◌, ◌*◌, ◌/◌, ◌^◌, ◌≤◌, ◌<◌, ◌≡◌, refl, sym, ap, ◌∙◌, inl, inr, true, false, some, List,
  [], ◌∷◌, ltb, leb, ◌==◌, arith, Bool-cases,
}
use native.Mathlib.Nat.{div-le_of_le-mul}
use helia.Parsing.{parsed}
use helia.Ts.Window.{sub64}
use helia.Ts.Groups.{add64, pcr_bitrate_needed, Group, Groups, find_group}
use helia.Ts.Groups.Estimate.{is_current}
use helia.Ts.Timing.{Timing, Entry, get_entry, store_entry, gsttime_to_pcrtime}
use helia.Ts.Timing.Offsets.{
  Points, is_empty, points_within, points_at, interpolate, entry_offset, ts_to_offset,
}

-- gst_util_uint64_scale rounds down where the result fits.
pub record RoundsDown (scale : ℕ → ℕ → ℕ → ℕ) : Type 0 where
  pub rounds :
      (value num denom : ℕ)
      → 0 < denom
      → value * num / denom < 2 ^ 64
      → scale value num denom ≡ value * num / denom

share_le : (a b n : ℕ) → a ≤ n → 0 < n → a * b / n ≤ b
share_le a b n h p = div-le_of_le-mul n (grind arith)

interpolate_bounds :
    (scale : ℕ → ℕ → ℕ → ℕ) (querypcr : ℕ) (p : Points)
    → RoundsDown scale
    → p.firstpcr ≤ querypcr
    → querypcr ≤ p.lastpcr
    → p.lastpcr < 2 ^ 64
    → p.firstoffset ≤ p.lastoffset
    → p.lastoffset < 2 ^ 64
    → (p.firstoffset ≤ interpolate scale querypcr p) × (interpolate scale querypcr p ≤ p.lastoffset)
unfolding interpolate
interpolate_bounds scale querypcr p r low high top order room =
    let length = p.lastpcr - p.firstpcr in
    let bytes = p.lastoffset - p.firstoffset in
    let a : sub64 querypcr p.firstpcr ≡ querypcr - p.firstpcr = omega (arith, low, high, top) in
    let b : sub64 p.lastoffset p.firstoffset ≡ bytes = omega (arith, order, room) in
    let c : sub64 p.lastpcr p.firstpcr ≡ length = omega (arith, low, high, top) in
    elim (Bool-cases (p.lastpcr == p.firstpcr)) [
      | inl same ↦ rw same (omega (arith, order), order)
      | inr apart ↦
          let some_length : 0 < length = ground (arith, apart, low, high) in
          let share =
            share_le (querypcr - p.firstpcr) bytes length (omega (arith, low, high)) some_length in
          let exact =
            r.rounds (querypcr - p.firstpcr) bytes length some_length
              (omega (arith, share, order, room)) in
          rw (apart, a, b, c, exact) (omega (arith, share, order, room))
    ]

find_group-number :
    (number : ℕ) (groups : List Group) (g : Group)
    → find_group number groups ≡ parsed g
    → (g.number ≡ number) × (is_empty groups ≡ false)
unfolding find_group
find_group-number number [] g e = absurd (ground (arith, e))
find_group-number number (h ∷ groups) g e = elim (Bool-cases (h.number == number)) [
  | inl here ↦
      let same : h ≡ g = ground (arith, e, here) in
      (sym (ap (λ (x : Group). x.number) same) ∙ ground (arith, here), refl)
  | inr away ↦ ((find_group-number number groups g (ground (arith, e, away))).0, refl)
]

points_at-current :
    (querypcr number : ℕ) (g : Groups) (group : Group)
    → g.current.group ≡ some number
    → find_group number g.groups ≡ parsed group
    → g.current.last < pcr_bitrate_needed
    → group.pcr_offset ≤ querypcr
    → querypcr ≤ group.pcr_offset + (g.current.pending g.current.last).pcr
    → points_at querypcr g.current.group g
      ≡ parsed (record {
        firstpcr = group.pcr_offset;
        firstoffset = group.first_offset;
        lastpcr = add64 group.pcr_offset (g.current.pending g.current.last).pcr;
        lastoffset = add64 group.first_offset (g.current.pending g.current.last).offset;
      })
unfolding points_within
points_at-current querypcr number g group current held place low high =
    let last = g.current.pending g.current.last in
    let inside : ltb g.current.last pcr_bitrate_needed ≡ true = ground (arith, place) in
    let before : leb group.pcr_offset querypcr ≡ true = ground (arith, low) in
    let after : leb (querypcr - group.pcr_offset) last.pcr ≡ true = ground (arith, high, low) in
    let named = (find_group-number number g.groups group held).0 in
    let same : (number == group.number) ≡ true = ground (arith, named) in
    let here : is_current g.current.group group.number ≡ true =
      ap (λ o. is_current o group.number) current ∙ same in
    ap (λ o. points_at querypcr o g) current ∙ rw (held, inside, before, after, here) refl

-- A stream time from the start of the current group to its last observation in the window is given an
-- offset from that of the start to that of the observation, if scaling rounds down.
pub ts_to_offset-within :
    (scale : ℕ → ℕ → ℕ → ℕ) (ts pid : ℕ) (t : Timing) (e : Entry) (number : ℕ) (group : Group)
    → RoundsDown scale
    → t.calculates_offset ≡ true
    → get_entry pid t ≡ parsed e
    → e.pcr.offsets.current.group ≡ some number
    → find_group number e.pcr.offsets.groups ≡ parsed group
    → e.pcr.offsets.current.last < pcr_bitrate_needed
    → group.pcr_offset ≤ gsttime_to_pcrtime scale ts
    → gsttime_to_pcrtime scale ts
      ≤ group.pcr_offset + (e.pcr.offsets.current.pending e.pcr.offsets.current.last).pcr
    → group.pcr_offset + (e.pcr.offsets.current.pending e.pcr.offsets.current.last).pcr < 2 ^ 64
    → group.first_offset + (e.pcr.offsets.current.pending e.pcr.offsets.current.last).offset
      < 2 ^ 64
    → (offset : ℕ) × (ts_to_offset scale ts pid t ≡ parsed (offset, store_entry e))
      × (group.first_offset ≤ offset)
      × (offset
          ≤ group.first_offset + (e.pcr.offsets.current.pending e.pcr.offsets.current.last).offset)
unfolding ts_to_offset entry_offset
ts_to_offset-within scale ts pid t e number group r on found current held place low high top room =
    let g = e.pcr.offsets in
    let last = g.current.pending g.current.last in
    let query = gsttime_to_pcrtime scale ts in
    let p : Points = record {
      firstpcr = group.pcr_offset;
      firstoffset = group.first_offset;
      lastpcr = add64 group.pcr_offset last.pcr;
      lastoffset = add64 group.first_offset last.offset;
    } in
    let filled = (find_group-number number g.groups group held).1 in
    let searched = points_at-current query number g group current held place low high in
    let (from, to) =
      interpolate_bounds scale query p r low (omega (arith, high, top)) (omega arith)
        (omega (arith, room)) (omega arith) in
    (
      interpolate scale query p,
      rw (found, filled, searched, on) refl,
      from,
      omega (arith, to, room),
    )
