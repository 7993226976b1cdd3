-- ===== src/Tests/Programs.antt =====
-- Applying a PAT and PMTs at concrete inputs.
use helia.Common.{
  ℕ, ◌≡◌, ◌==◌, if◌then◌else◌, inl, inr, Bool-cases, Bool, true, false, none, some, List, [], ◌∷◌,
  refl, arith,
}
use helia.Ts.Programs.{PatProgram, PmtStream, Pmt, Program, Base, new_program, apply_pat}
use helia.Ts.Programs.References.{Counted}
use helia.Ts.Programs.Tables.{references, apply_pat-Counted}
use helia.Ts.Programs.Update.{apply_pmt, update_program}
use helia.Ts.Programs.Streams.{IsListed, updated}
use helia.Ts.Programs.Stale.{update_program-updated}
use helia.Ts.Programs.Pmts.{apply_pmt-Counted}

-- Before the first PAT.
abbrev new_base : Base
new_base = record {
  programs = [];
  pat = none;
  known_psi = λ pid. false;
  is_pes = λ pid. false;
  seen_pat = false;
  parse_private_sections = false;
  streams_aware = false;
  section_streams = λ pid. none;
  handed_over = [];
  events = [];
  can_remove_program = λ events p. true;
}

abbrev two_programs : List PatProgram
two_programs =
    record { program_number = 1; network_or_program_map_pid = 0x100 }
    ∷ record { program_number = 2; network_or_program_map_pid = 0x200 }
    ∷ []

abbrev one_program : List PatProgram
one_program = record { program_number = 2; network_or_program_map_pid = 0x201 } ∷ []

new_base-Counted : Counted (references none) new_base.programs
unfolding helia.Common.lookup
new_base-Counted = record { missing = λ n e. refl; present = λ n p e. absurd (ground (arith, e)) }

-- The second PAT of a stream, which drops a program and moves another.
apply_pat-Counted_example :
    Counted
      (references (some one_program))
      (apply_pat (some one_program) (apply_pat (some two_programs) new_base).0).0.programs
unfolding apply_pat helia.Ts.Programs.activate_pat helia.Common.lookup helia.Ts.Programs.add_program
    helia.Common.insert
apply_pat-Counted_example =
    apply_pat-Counted one_program (apply_pat (some two_programs) new_base).0
      (apply_pat-Counted two_programs new_base new_base-Counted)

-- Video, sound, and a PCR of its own.
abbrev two_streams : Pmt
two_streams = record {
  pcr_pid = 0x103;
  streams =
      record { pid = 0x101; stream_type = 0x1b; private_section = false }
      ∷ record { pid = 0x102; stream_type = 3; private_section = false }
      ∷ [];
}

-- A program starts.
apply_pmt-Counted_example :
    Counted
      (references (some two_programs))
      (apply_pmt 0x100 1
        (some two_streams)
        (record (apply_pat (some two_programs) new_base).0 { seen_pat = true })).0.programs
apply_pmt-Counted_example =
    apply_pmt-Counted (references (some two_programs)) 0x100 1 (some two_streams)
      (record (apply_pat (some two_programs) new_base).0 { seen_pat = true })
      (apply_pat-Counted two_programs new_base new_base-Counted)

-- A program with video of an older type.
abbrev one_stream : Program
one_stream = record (new_program 1 0x100) {
  streams = λ pid. if pid == 0x101 then some 2 else none;
  stream_list = (0x101, 2) ∷ [];
}

one_stream-IsListed : IsListed one_stream
unfolding helia.Ts.Programs.Streams.has_entry
one_stream-IsListed pid t = elim (Bool-cases (pid == 0x101)) [
  | inl here ↦
      let other : (0x101 == pid) ≡ true = ground (arith, here) in rw (here, other) (ground arith)
  | inr away ↦ let other : (0x101 == pid) ≡ false = ground (arith, away) in rw (away, other) refl
]

update_program-updated_example :
    IsListed (update_program two_streams one_stream new_base).0
    × ((pid : ℕ)
        → (update_program two_streams one_stream new_base).0.streams pid
          ≡ updated two_streams.streams pid (if pid == 0x101 then some 2 else none))
update_program-updated_example =
    update_program-updated two_streams one_stream new_base one_stream-IsListed
