-- ===== src/Ts/Section/Invariant.antt =====
-- gst/gst-demux/mpegtspacketizer.c: the state of a stream of sections between packets.
use helia.Common.{ℕ, ◌≤◌, ◌<◌, ◌≡◌, refl, ◌⊎◌, Option, none, some, List, length}
use helia.Ts.Section.{Stream, continuity_unset, stream_new, clear_section}

-- A section is pending: its memory has its length, and something is missing.
pub record Pending (stream : Stream) (memory : List ℕ) : Type 0 where
  pub there : stream.section_data ≡ some memory
  pub size : length memory ≡ stream.section_length
  pub missing : stream.section_offset < stream.section_length
  pub short : stream.section_length ≤ 4098

-- No section is pending: there is no memory for one.
pub record Idle (stream : Stream) : Type 0 where
  pub counter : stream.continuity_counter ≡ continuity_unset
  pub nothing : stream.section_data ≡ none

-- At all times between packets one or the other, and the counter says which.
abbrev pub Steady : Stream → Type 0
Steady stream =
    Idle stream ⊎ ((stream.continuity_counter < 16) × ((memory : List ℕ) × Pending stream memory))

pub clear_section-Idle : (stream : Stream) → Idle (clear_section stream)
unfolding clear_section
clear_section-Idle stream = record { counter = refl; nothing = refl }

pub stream_new-Idle : (pid : ℕ) → Idle (stream_new pid)
unfolding stream_new
stream_new-Idle pid = record { counter = refl; nothing = refl }

-- The table of streams when all of them are steady.
abbrev pub AllSteady : (ℕ → Option Stream) → Type 0
AllSteady streams = (pid : ℕ) (stream : Stream) → streams pid ≡ some stream → Steady stream
