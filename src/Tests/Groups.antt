-- ===== src/Tests/Groups.antt =====
-- Groups of PCR observations, and offsets by them, at concrete inputs.
use helia.Common.{
  ℕ, ◌+◌, ◌*◌, ◌/◌, ◌^◌, ◌≤◌, ◌≡◌, refl, inl, true, false, none, some, [], ◌∷◌, ltb, ◌==◌,
  if◌then◌else◌, arith, subst, Bool-cases, inr,
}
use helia.Parsing.{parsed}
use helia.Parsing.Gives.{Gives}
use helia.Ts.Groups.{Group, Groups, pcr_max_value, new_group, no_current}
use helia.Ts.Groups.Sound.{IsGroups}
use helia.Ts.Groups.Recording.{record_pcr, contiguous_offset}
use helia.Ts.Groups.Recorded.{record_pcr-IsGroups}
use helia.Ts.Groups.Continuity.{contiguous_offset_bounds}
use helia.Ts.Clock.{pcr_new}
use helia.Ts.Clock.Sliding.{pcr_new-IsWindow}
use helia.Ts.Clock.Table.{Table}
use helia.Ts.Timing.{Timing, Entry, get_entry, store_entry, handle_pcr}
use helia.Ts.Timing.Sound.{IsPcr, IsTiming}
use helia.Ts.Timing.Handled.{handle_pcr-IsTiming}
use helia.Ts.Timing.Offsets.{ts_to_offset}
use helia.Ts.Timing.Within.{RoundsDown, ts_to_offset-within}

abbrev pub scale : ℕ → ℕ → ℕ → ℕ
scale value num denom = value * num / denom

pub scale-RoundsDown : RoundsDown scale
scale-RoundsDown = record { rounds = λ value num denom some_denom fits. refl }

-- A group with two observations, half a second and 600 bytes apart.
abbrev first_group : Group
first_group = new_group 0 27000 188 0 false

abbrev two_seen : Groups
two_seen = record {
  groups = first_group ∷ [];
  current = record no_current {
    group = some 0;
    pending = λ k.
        if k == 0 then record { pcr = 0; offset = 0 } else record { pcr = 13500000; offset = 600 };
    last_value = record { pcr = 13500000; offset = 600 };
    first_pcr = 27000;
    first_offset = 188;
    last = 1;
    write = 2;
  };
  next = 1;
}

two_seen-IsGroups : IsGroups two_seen
unfolding new_group no_current
two_seen-IsGroups = record {
  sound = (omega arith, tt);
  held = inl refl;
  window = record {
    first_place = omega arith;
    last_place = omega arith;
    write_place = omega arith;
  };
}

-- A PCR that was reset.
record_pcr-IsGroups_example :
    Gives IsGroups (record_pcr scale (λ d b limit. ltb (100 * d) (limit * b)) 27001 976 two_seen)
record_pcr-IsGroups_example =
    record_pcr-IsGroups scale (λ d b limit. ltb (100 * d) (limit * b)) 27001 976 two_seen
      two_seen-IsGroups

contiguous_offset_bounds_example :
    (0 + 13500000
      ≤ contiguous_offset
          (new_group 0 27000 188 0 false)
          (record { pcr = 13500000; offset = 600 })
          27001)
    × (contiguous_offset
          (new_group 0 27000 188 0 false)
          (record { pcr = 13500000; offset = 600 })
          27001
        ≤ 0 + 13500000 + pcr_max_value / 100 + 1)
unfolding new_group
contiguous_offset_bounds_example =
    contiguous_offset_bounds (new_group 0 27000 188 0 false)
      (record { pcr = 13500000; offset = 600 }) 27001 (omega arith) (omega arith) (omega arith)

abbrev pub one_pid : Timing
one_pid = record {
  table = record {
    observations =
        λ k. if k == 0 then some (record (pcr_new 0x100) { offsets = two_seen }) else none;
    pcrtablelut = λ pid. if pid == 0x100 then 0 else 255;
    lastobsid = 1;
  };
  calculates_skew = false;
  calculates_offset = true;
  offset = 976;
  refoffset = 0;
  nb_seen_offsets = 2;
  last_in_time = 0;
  pcr_discont_threshold = 10 ^ 9;
}

pub one_pid-IsTiming : IsTiming one_pid
unfolding pcr_new
one_pid-IsTiming k pcr e = elim (Bool-cases (k == 0)) [
  | inl first ↦
      let same : record (pcr_new 0x100) { offsets = two_seen } ≡ pcr = ground (arith, e, first) in
      let empty_window = pcr_new-IsWindow 0x100 in
      subst IsPcr same (record {
        window = record {
          words = empty_window.words;
          filling = empty_window.filling;
          full = empty_window.full;
        };
        groups = two_seen-IsGroups;
      })
  | inr other ↦ absurd (ground (arith, e, other))
]

-- A PCR that goes on, while offsets are calculated.
handle_pcr-IsTiming_example :
    Gives IsTiming
      (handle_pcr scale (λ d b limit. ltb (100 * d) (limit * b)) 0x100 13600000 976 one_pid)
handle_pcr-IsTiming_example =
    handle_pcr-IsTiming scale (λ d b limit. ltb (100 * d) (limit * b)) 0x100 13600000 976 one_pid
      one_pid-IsTiming

abbrev only_entry : Entry
only_entry = record {
  pcr = record (pcr_new 0x100) { offsets = two_seen };
  place = 0;
  timing = one_pid;
}

get_only_entry : get_entry 0x100 one_pid ≡ parsed only_entry
unfolding get_entry helia.Ts.Clock.Table.get_pcr_table
get_only_entry = refl

-- A quarter of a second.
ts_to_offset-within_example :
    (offset : ℕ) × (ts_to_offset scale 250000000 0x100 one_pid
      ≡ parsed (offset, store_entry only_entry))
    × (188 ≤ offset)
    × (offset ≤ 188 + 600)
unfolding new_group no_current helia.Ts.Groups.find_group
ts_to_offset-within_example =
    ts_to_offset-within scale 250000000 0x100 one_pid only_entry 0 first_group scale-RoundsDown refl
      get_only_entry refl refl (omega arith) (omega arith) (omega arith) (omega arith) (omega arith)
