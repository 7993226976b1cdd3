-- ===== src/Ts/Programs/Update.antt =====
-- gst/gst-demux/mpegtsbase.c: applying a program map table (PMT) to the program it is for.
use helia.Common.{
  ℕ, ◌+◌, Bool, true, false, not, ◌&&◌, ◌||◌, Option, none, some, List, [], ◌∷◌, ◌++◌, ◌==◌,
  if◌then◌else◌, lookup, insert, remove, length,
}
use helia.Ts.Programs.{
  PmtStream, Pmt, Program, Base, raise, program_updated, new_program, update_table,
  program_remove_stream, program_add_stream, deactivate_program, activate_program,
}

-- Does a PMT have a stream with the PID and the type?
unfoldable pub stream_in_pmt : List PmtStream → ℕ → ℕ → Bool
stream_in_pmt [] pid stream_type = false
stream_in_pmt (stream ∷ streams) pid stream_type =
    stream.pid == pid && stream.stream_type == stream_type || stream_in_pmt streams pid stream_type

abbrev pub has_type : Option ℕ → ℕ → Bool
has_type none stream_type = false
has_type (some old) stream_type = old == stream_type

abbrev pub pmt_stream_in_program : Program → PmtStream → Bool
pmt_stream_in_program p stream = has_type (p.streams stream.pid) stream.stream_type

abbrev pub add_new_stream : PmtStream → Program → Base → Program × Base
add_new_stream stream p base =
    if pmt_stream_in_program p stream
    then (p, base)
    else program_add_stream stream.pid stream.stream_type p base

-- The loop of an update that adds streams.
unfoldable pub add_new_streams : List PmtStream → Program → Base → Program × Base
add_new_streams [] p base = (p, base)
add_new_streams (stream ∷ streams) p base =
    let (after, added) = add_new_stream stream p base in add_new_streams streams after added

-- The streams of a program that a PMT lacks, before those in `toremove`.
unfoldable pub stale_streams : List PmtStream → List (ℕ × ℕ) → List (ℕ × ℕ) → List (ℕ × ℕ)
stale_streams pmt [] toremove = toremove
stale_streams pmt ((pid, stream_type) ∷ streams) toremove =
    stale_streams pmt streams
      (if stream_in_pmt pmt pid stream_type then toremove else (pid, stream_type) ∷ toremove)

unfoldable pub remove_streams : List (ℕ × ℕ) → Program → Base → Program × Base
remove_streams [] p base = (p, base)
remove_streams ((pid, stream_type) ∷ toremove) p base =
    let (after, removed) = program_remove_stream pid p base in remove_streams toremove after removed

unfoldable pub update_program : Pmt → Program → Base → Program × Base
update_program pmt p base =
    let (wider, added) = add_new_streams pmt.streams (record p { pmt = some pmt }) base in
    let told = raise (program_updated p.program_number) (update_table wider added) in
    let (after, removed) =
      remove_streams (stale_streams pmt.streams wider.stream_list []) wider told in
    (after, update_table after removed)

-- The loop over the streams of the new PMT: `none` if one differs, else whether one has the PCR.
unfoldable pub same_streams : List PmtStream → Program → Bool → Option Bool
same_streams [] p sawpcrpid = some sawpcrpid
same_streams (stream ∷ streams) p sawpcrpid =
    let rest = same_streams streams p (sawpcrpid || stream.pid == p.pcr_pid) in
    if pmt_stream_in_program p stream then rest else none

abbrev pub same_length : Option Bool → List PmtStream → Program → Bool
same_length none streams p = false
same_length (some sawpcrpid) streams p =
    (if sawpcrpid then length streams else length streams + 1) == length p.stream_list

unfoldable pub is_same_program : Program → ℕ → Pmt → Bool
is_same_program p pmt_pid pmt =
    p.pmt_pid == pmt_pid
    && p.pcr_pid == pmt.pcr_pid
    && same_length (same_streams pmt.streams p false) pmt.streams p

unfoldable pub keeps_stream : List PmtStream → Program → Bool
keeps_stream [] p = false
keeps_stream (stream ∷ streams) p =
    pmt_stream_in_program p stream && not stream.private_section || keeps_stream streams p

unfoldable pub is_program_update : Program → ℕ → Pmt → Bool
is_program_update p pmt_pid pmt = p.pmt_pid == pmt_pid && keeps_stream pmt.streams p

-- A program that is active makes way for a new one.
abbrev pub replace_program : ℕ → ℕ → Program → Base → Program × Base
replace_program program_number pid old base =
    let stolen = record base { programs = remove program_number base.programs } in
    let program = record (new_program program_number pid) { patcount = old.patcount } in
    let stopped =
      if stolen.can_remove_program stolen.events old
      then (deactivate_program old stolen).1
      else record stolen {
        programs = remove old.program_number stolen.programs;
        handed_over = stolen.handed_over ++ (old ∷ []);
      } in
    (program, record stopped { programs = insert program_number program stopped.programs })

-- `pid` is the PID of the section.
abbrev pub apply_to_program : ℕ → ℕ → Pmt → Option Program → Base → Base
apply_to_program pid program_number pmt none base = base
apply_to_program pid program_number pmt (some old) base =
    if base.streams_aware && is_program_update old pid pmt
    then (update_program pmt old base).1
    else if is_same_program old pid pmt
    then base
    else if old.active
    then (let (program, replaced) = replace_program program_number pid old base in
        (activate_program program pid pmt false replaced).1)
    else (activate_program old pid pmt true base).1

unfoldable pub apply_pmt : ℕ → ℕ → Option Pmt → Base → Base × Bool
apply_pmt pid program_number none base = (base, false)
apply_pmt pid program_number (some pmt) base =
    if base.seen_pat
    then (apply_to_program pid program_number pmt (lookup program_number base.programs) base, true)
    else (
      record base { section_streams = λ k. if k == pid then none else base.section_streams k },
      true,
    )
