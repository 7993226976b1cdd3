-- ===== src/Ts/Programs.antt =====
-- gst/gst-demux/mpegtsbase.c: the programs that a program association table (PAT) lists. A table of
-- libgstmpegts is the list of its entries; what a sub-class does in its callbacks is not seen.
use helia.Common.{
  ℕ, ◌+◌, ◌-◌, Bool, true, false, not, ◌&&◌, ◌||◌, Option, none, some, List, [], ◌∷◌, ◌++◌, ltb,
  ◌==◌, if◌then◌else◌, lookup, insert, remove,
}
use helia.Ts.Section.{Stream}
pub mod References
pub mod Tables
pub mod Update
pub mod Streams
pub mod Stale
pub mod Counts
pub mod Pmts

-- GstMpegtsPatProgram and GstMpegtsPMTStream.
pub record PatProgram : Type 0 where
  pub program_number : ℕ
  pub network_or_program_map_pid : ℕ

-- `private_section` is what `_stream_is_private_section` finds in the stream's type and descriptors.
pub record PmtStream : Type 0 where
  pub pid : ℕ
  pub stream_type : ℕ
  pub private_section : Bool

pub record Pmt : Type 0 where
  pub pcr_pid : ℕ
  pub streams : List PmtStream

-- MpegTSBaseProgram; `streams` has the types of the streams by PID, and `stream_list` has the PID and type
-- of each.
pub record Program : Type 0 where
  pub program_number : ℕ
  pub pmt_pid : ℕ
  pub pcr_pid : ℕ
  pub pmt : Option Pmt
  pub streams : ℕ → Option ℕ
  pub stream_list : List (ℕ × ℕ)
  pub patcount : ℕ
  pub active : Bool
  pub initial_program : Bool

-- The calls of a sub-class.
pub data Event : Type 0 where
  stream_added stream_removed : ℕ → Event
  program_started program_stopped program_updated : ℕ → Event

-- MpegTSBase, with the streams of its packetizer, the programs that went to a sub-class, and the calls
-- so far. `can_remove_program` is the sub-class's answer.
pub record Base : Type 0 where
  pub programs : List (ℕ × Program)
  pub pat : Option (List PatProgram)
  pub known_psi : ℕ → Bool
  pub is_pes : ℕ → Bool
  pub seen_pat : Bool
  pub parse_private_sections : Bool
  pub streams_aware : Bool
  pub section_streams : ℕ → Option Stream
  pub handed_over : List Program
  pub events : List Event
  pub can_remove_program : List Event → Program → Bool

abbrev pub no_pid : ℕ
no_pid = 65535

-- MPEGTS_BIT_SET and MPEGTS_BIT_UNSET.
abbrev pub set_bit : ℕ → (ℕ → Bool) → ℕ → Bool
set_bit pid field k = (k == pid) || field k

abbrev pub unset_bit : ℕ → (ℕ → Bool) → ℕ → Bool
unset_bit pid field k = not (k == pid) && field k

abbrev pub raise : Event → Base → Base
raise event base = record base { events = base.events ++ (event ∷ []) }

abbrev pub has_stream : Option ℕ → Bool
has_stream none = false
has_stream (some stream_type) = true

unfoldable pub new_program : ℕ → ℕ → Program
new_program program_number pmt_pid = record {
  program_number = program_number;
  pmt_pid = pmt_pid;
  pcr_pid = no_pid;
  pmt = none;
  streams = λ pid. none;
  stream_list = [];
  patcount = 0;
  active = false;
  initial_program = false;
}

-- A program that is in the table changes there.
abbrev pub update_found : Option Program → Program → Base → Base
update_found none p base = base
update_found (some old) p base = record base { programs = insert p.program_number p base.programs }

abbrev pub update_table : Program → Base → Base
update_table p base = update_found (lookup p.program_number base.programs) p base

unfoldable pub program_remove_stream : ℕ → Program → Base → Program × Base
program_remove_stream pid p base =
    if has_stream (p.streams pid)
    then (
      record p {
        streams = λ k. if k == pid then none else p.streams k;
        stream_list = remove pid p.stream_list;
      },
      raise (stream_removed pid) base,
    )
    else (p, base)

unfoldable pub program_add_stream : ℕ → ℕ → Program → Base → Program × Base
program_add_stream pid stream_type p base = if has_stream (p.streams pid) then (p, base) else (
  record p {
    streams = λ k. if k == pid then some stream_type else p.streams k;
    stream_list = p.stream_list ++ ((pid, stream_type) ∷ []);
  },
  raise (stream_added pid) base,
)

-- Does an active program of the table have a stream with the PID?
unfoldable pub pid_in_active_programs : ℕ → List (ℕ × Program) → Bool
pid_in_active_programs pid [] = false
pid_in_active_programs pid ((number, p) ∷ programs) =
    p.active && has_stream (p.streams pid) || pid_in_active_programs pid programs

-- The loop over the streams of a program that stops.
unfoldable pub deactivate_streams : List PmtStream → Program → Base → Program × Base
deactivate_streams [] p base = (p, base)
deactivate_streams (stream ∷ streams) p base =
    let (after, removed) = program_remove_stream stream.pid p base in
    let used = pid_in_active_programs stream.pid removed.programs in
    deactivate_streams streams after (
      if used
      then removed
      else if stream.private_section
      then (if removed.parse_private_sections
          then record removed { known_psi = unset_bit stream.pid removed.known_psi }
          else removed)
      else record removed { is_pes = unset_bit stream.pid removed.is_pes })

abbrev pub deactivate_pmt : Option Pmt → Program → Base → Program × Base
deactivate_pmt none p base = (p, base)
deactivate_pmt (some pmt) p base =
    let (stopped, bits) = deactivate_streams pmt.streams p base in
    let (after, removed) = program_remove_stream p.pcr_pid stopped bits in
    (
      after,
      if pid_in_active_programs p.pcr_pid removed.programs
          then removed
          else record removed { is_pes = unset_bit p.pcr_pid removed.is_pes },
    )

unfoldable pub deactivate_program : Program → Base → Program × Base
deactivate_program p base =
    if p.active
    then (let stopping = record p { active = false } in
        let (after, done) = deactivate_pmt p.pmt stopping (update_table stopping base) in
        (after, raise (program_stopped p.program_number) (update_table after done)))
    else (p, base)

-- The bits of a stream of a program that starts.
abbrev pub mark_stream : PmtStream → Base → Base
mark_stream stream base =
    if stream.private_section
    then (if base.parse_private_sections
        then record base { known_psi = set_bit stream.pid base.known_psi }
        else base)
    else record base {
      known_psi = unset_bit stream.pid base.known_psi;
      is_pes = set_bit stream.pid base.is_pes;
    }

-- The loop over the streams of a program that starts.
unfoldable pub activate_streams : List PmtStream → Program → Base → Program × Base
activate_streams [] p base = (p, base)
activate_streams (stream ∷ streams) p base =
    let (after, added) =
      program_add_stream stream.pid stream.stream_type p (mark_stream stream base) in
    activate_streams streams after added

unfoldable pub activate_program : Program → ℕ → Pmt → Bool → Base → Program × Base
activate_program p pmt_pid pmt initial_program base =
    if p.active
    then (p, base)
    else (let starting = record p { pmt = some pmt; pmt_pid = pmt_pid; pcr_pid = pmt.pcr_pid } in
        let (streaming, marked) = activate_streams pmt.streams starting base in
        let (timed, added) = program_add_stream pmt.pcr_pid 255 streaming marked in
        let started = record timed { active = true; initial_program = initial_program } in
        (
          started,
          raise (program_started p.program_number)
              (update_table started (record added { is_pes = set_bit pmt.pcr_pid added.is_pes })),
        ))

-- mpegts_base_add_program; the table has no program with the number.
unfoldable pub add_program : ℕ → ℕ → ℕ → Base → Base
add_program program_number pmt_pid patcount base = record base {
  known_psi = set_bit pmt_pid base.known_psi;
  programs =
      insert program_number (record (new_program program_number pmt_pid) { patcount = patcount })
        base.programs;
}

-- The PMT of a program moves to another PID.
abbrev pub move_pmt : ℕ → Program → Base → Base
move_pmt pid p base =
    if p.pmt_pid == pid
    then base
    else (let unmarked =
          if p.pmt_pid == no_pid then base.known_psi else unset_bit p.pmt_pid base.known_psi in
        record base { known_psi = set_bit pid unmarked })

-- An entry of the new PAT, for the program that has its number.
abbrev pub reference : PatProgram → Option Program → Base → Base
reference patp none base = add_program patp.program_number patp.network_or_program_map_pid 1 base
reference patp (some p) base =
    let moved = move_pmt patp.network_or_program_map_pid p base in
    record moved {
      programs =
          insert patp.program_number
            (record p { pmt_pid = patp.network_or_program_map_pid; patcount = p.patcount + 1 })
            moved.programs;
    }

unfoldable pub activate_pat : List PatProgram → Base → Base
activate_pat [] base = base
activate_pat (patp ∷ pat) base =
    activate_pat pat (reference patp (lookup patp.program_number base.programs) base)

-- A program that no PAT lists any more is removed, or goes to the sub-class.
unfoldable pub drop_program : PatProgram → Program → Base → Base
drop_program patp p base =
    let dropped =
      if base.can_remove_program base.events p
      then (let (after, done) = deactivate_program p base in
          record done { programs = remove patp.program_number done.programs })
      else record base {
        programs = remove patp.program_number base.programs;
        handed_over = base.handed_over ++ (p ∷ []);
      } in
    record dropped {
      known_psi = set_bit patp.network_or_program_map_pid dropped.known_psi;
      section_streams = λ pid.
          if pid == patp.network_or_program_map_pid then none else dropped.section_streams pid;
    }

-- An entry of the old PAT, for the program that has its number.
abbrev pub unreference : PatProgram → Option Program → Base → Base
unreference patp none base = base
unreference patp (some p) base =
    let less = record p { patcount = p.patcount - 1 } in
    let counted = record base { programs = insert patp.program_number less base.programs } in
    if ltb 0 less.patcount then counted else drop_program patp less counted

unfoldable pub deactivate_pat : List PatProgram → Base → Base
deactivate_pat [] base = base
deactivate_pat (patp ∷ pat) base =
    deactivate_pat pat (unreference patp (lookup patp.program_number base.programs) base)

abbrev pub deactivate_old : Option (List PatProgram) → Base → Base
deactivate_old none base = base
deactivate_old (some old) base = deactivate_pat old base

-- A section without a PAT changes nothing.
unfoldable pub apply_pat : Option (List PatProgram) → Base → Base × Bool
apply_pat none base = (base, false)
apply_pat (some pat) base =
    (deactivate_old base.pat (activate_pat pat (record base { pat = some pat })), true)
