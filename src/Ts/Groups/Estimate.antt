-- ===== src/Ts/Groups/Estimate.antt =====
-- gst/gst-demux/mpegtspacketizer.c: `_reevaluate_group_pcr_offset`, the stream time at which a group
-- starts that does not follow the one before it. `scale` is gst_util_uint64_scale, and `within` compares
-- floats: within d b limit is (float) 100 * d / (float) b < limit.
use helia.Common.{
  ℕ, ◌*◌, ◌/◌, Bool, true, false, not, ◌&&◌, Option, none, some, List, [], ◌∷◌, ltb, ◌==◌,
  if◌then◌else◌,
}
use helia.Parsing.{Parse, parsed, ◌>>=◌}
use helia.Ts.Window.{sub64}
use helia.Ts.Groups.{
  add64, pcr_max_value, pcr_second, pcr_msecond, absdiff, Observation, Group, Current, pending_at,
  values_at,
}

-- Where the observations of a group end, in bytes and as a PCR, and its bytes for each second.
pub record Rate : Type 0 where
  pub prevoffset : ℕ
  pub prevpcr : ℕ
  pub prevbr : ℕ

abbrev pub is_current : Option ℕ → ℕ → Bool
is_current none number = false
is_current (some group) number = group == number

-- A guess for the stream time of a group that is close enough, or sure.
abbrev pub settle : Bool → Bool → ℕ → Group → Group
settle false sure guess_offset cur = cur
settle true sure guess_offset cur = record cur {
  pcr_offset = guess_offset;
  estimated = not sure && cur.estimated;
}

module _ (scale : ℕ → ℕ → ℕ → ℕ) (within : ℕ → ℕ → ℕ → Bool) where
  abbrev pub rate_of : Group → Observation → Rate
  rate_of prev o = record {
    prevoffset = add64 o.offset prev.first_offset;
    prevpcr = add64 o.pcr prev.first_pcr;
    prevbr = scale pcr_second o.offset o.pcr;
  }

  -- The rate of a group: from the window if it is on the group, from its values, or overall.
  unfoldable pub previous_rate : Current → Group → Parse Rate
  previous_rate c prev = do
    last ← values_at prev prev.last_value
    let valued =
        if last.offset == 0
        then record (rate_of prev last) {
          prevbr = scale pcr_second prev.first_offset prev.pcr_offset;
        }
        else rate_of prev last
    let observed = do
      pending ← pending_at c c.last
      parsed (if pending.offset == 0 then valued else rate_of prev pending)
    if is_current c.group prev.number then observed else parsed valued

  -- A PCR that wrapped around between the groups, if the rate between them is like that of the first.
  unfoldable pub estimate_wrap : Rate → Group → Group → Observation → Group × Group
  estimate_wrap r prev cur last =
      let lastoffset = add64 last.offset cur.first_offset in
      let guess_offset = add64 (sub64 pcr_max_value prev.first_pcr) cur.first_pcr in
      let lastbr =
        scale pcr_second (sub64 lastoffset r.prevoffset)
          (sub64 (add64 guess_offset last.pcr) (sub64 r.prevpcr prev.first_pcr)) in
      let diff = absdiff r.prevbr lastbr in
      (
        record prev { wrapover = true },
        settle (within diff r.prevbr 10) (within diff r.prevbr 1) guess_offset cur,
      )

  -- A PCR that was reset between the groups.
  unfoldable pub estimate_reset : Rate → Group → Group → Group × Group
  estimate_reset r prev cur =
      let resetprev = scale pcr_second (sub64 cur.first_offset prev.first_offset) r.prevbr in
      (
        record prev { reset = true },
        record cur { pcr_offset = add64 (add64 prev.pcr_offset resetprev) (100 * pcr_msecond) },
      )

  -- An estimated group by the one before it.
  unfoldable pub estimate : Current → Group → Group → Parse (Group × Group)
  estimate c prev cur =
      let backwards = (do
        r ← previous_rate c prev
        last ← values_at cur cur.last_value
        parsed (
            if ltb (pcr_max_value * 9 / 10) (sub64 r.prevpcr cur.first_pcr)
            then estimate_wrap r prev cur last
            else estimate_reset r prev cur)) in
      if ltb cur.first_pcr prev.first_pcr
      then backwards
      else parsed (
        record prev { reset = false; wrapover = false },
        record cur { pcr_offset = sub64 (add64 prev.pcr_offset cur.first_pcr) prev.first_pcr },
      )

  unfoldable pub reevaluate_after : Current → Group → List Group → Parse (List Group)
  reevaluate_after c prev [] = parsed (prev ∷ [])
  reevaluate_after c prev (cur ∷ groups) = do
    (before, next) ← if cur.estimated then estimate c prev cur else parsed (prev, cur)
    rest ← reevaluate_after c next groups
    parsed (before ∷ rest)

  unfoldable pub reevaluate : Current → List Group → Parse (List Group)
  reevaluate c [] = parsed []
  reevaluate c (cur ∷ groups) =
      if cur.estimated
      then parsed (record cur { pcr_offset = 0; estimated = false } ∷ groups)
      else reevaluate_after c cur groups
