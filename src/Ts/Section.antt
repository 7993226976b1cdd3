-- ===== src/Ts/Section.antt =====
-- gst/gst-demux/mpegtspacketizer.c: sections, put together from the packets of a PID. A section of
-- libgstmpegts is what `gst_mpegts_section_new` makes of its bytes. `fault` is a read outside the
-- packet or a write outside the section's memory.
use helia.Common.{
  ℕ, zero, suc, ◌+◌, ◌-◌, ◌%◌, ◌/◌, ◌^◌, Bool, true, false, not, ◌&&◌, ◌||◌, Option, none, some,
  List, [], ◌∷◌, ◌++◌, ltb, leb, ◌==◌, if◌then◌else◌, length, take, drop, poke, zeros,
}
use helia.Parsing.{Parse, parsed, need_more, fault, ◌>>=◌, bit, byte, read_uint16}
pub mod Push
pub mod Invariant
pub mod Store
pub mod Rounds
pub mod Reassembly
pub mod Seen

abbrev pub continuity_unset : ℕ
continuity_unset = 255

abbrev pub version_number_unset : ℕ
version_number_unset = 255

abbrev pub table_id_unset : ℕ
table_id_unset = 255

-- MpegTSPacketizerStreamSubtable; the 256 bits of `seen_section` are a function.
pub record Subtable : Type 0 where
  pub table_id : ℕ
  pub subtable_extension : ℕ
  pub version_number : ℕ
  pub last_section_number : ℕ
  pub seen_section : ℕ → Bool

-- MpegTSPacketizerStream.
pub record Stream : Type 0 where
  pub pid : ℕ
  pub continuity_counter : ℕ
  pub section_data : Option (List ℕ)
  pub section_offset : ℕ
  pub table_id : ℕ
  pub section_length : ℕ
  pub version_number : ℕ
  pub subtable_extension : ℕ
  pub section_number : ℕ
  pub last_section_number : ℕ
  pub subtables : List Subtable
  pub offset : ℕ

-- What the header of a section says.
pub record Header : Type 0 where
  pub table_id : ℕ
  pub section_length : ℕ
  pub subtable_extension : ℕ
  pub version_number : ℕ
  pub section_number : ℕ
  pub last_section_number : ℕ

abbrev pub is_subtable : ℕ → ℕ → Subtable → Bool
is_subtable table_id subtable_extension sub =
    sub.table_id == table_id && sub.subtable_extension == subtable_extension

unfoldable pub find_subtable : List Subtable → ℕ → ℕ → Option Subtable
find_subtable [] table_id subtable_extension = none
find_subtable (sub ∷ subtables) table_id subtable_extension =
    if is_subtable table_id subtable_extension sub
    then some sub
    else find_subtable subtables table_id subtable_extension

-- A change of the subtable that `find_subtable` points to.
unfoldable pub change_subtable : ℕ → ℕ → (Subtable → Subtable) → List Subtable → List Subtable
change_subtable table_id subtable_extension change [] = []
change_subtable table_id subtable_extension change (sub ∷ subtables) =
    if is_subtable table_id subtable_extension sub
    then change sub ∷ subtables
    else sub ∷ change_subtable table_id subtable_extension change subtables

-- Was the section seen, in the subtable that was found?
abbrev pub seen_in : Header → Option Subtable → Bool
seen_in h none = false
seen_in h (some subtable) =
    if not (subtable.version_number == h.version_number)
    then false
    else if not (subtable.last_section_number == h.last_section_number)
    then false
    else subtable.seen_section h.section_number

unfoldable pub seen_section_before : Stream → Header → Bool
seen_section_before stream h =
    seen_in h (find_subtable stream.subtables h.table_id h.subtable_extension)

unfoldable pub subtable_new : ℕ → ℕ → ℕ → Subtable
subtable_new table_id subtable_extension last_section_number = record {
  table_id = table_id;
  subtable_extension = subtable_extension;
  version_number = version_number_unset;
  last_section_number = last_section_number;
  seen_section = λ n. false;
}

unfoldable pub stream_new : ℕ → Stream
stream_new pid = record {
  pid = pid;
  continuity_counter = continuity_unset;
  section_data = none;
  section_offset = 0;
  table_id = table_id_unset;
  section_length = 0;
  version_number = 0;
  subtable_extension = 0;
  section_number = 0;
  last_section_number = 0;
  subtables = [];
  offset = 0;
}

unfoldable pub clear_section : Stream → Stream
clear_section stream = record stream {
  continuity_counter = continuity_unset;
  section_length = 0;
  section_offset = 0;
  table_id = table_id_unset;
  section_data = none;
}

-- The subtable of the pending section, reset if its version changed, or a new one.
unfoldable pub prepare_subtable : Stream → List Subtable
prepare_subtable stream =
    elim (find_subtable stream.subtables stream.table_id stream.subtable_extension) [
      | some subtable ↦
          if not (stream.version_number == subtable.version_number)
          then change_subtable stream.table_id stream.subtable_extension
              (λ sub. record sub {
                version_number = stream.version_number;
                last_section_number = stream.last_section_number;
                seen_section = λ n. false;
              })
              stream.subtables
          else stream.subtables
      | none ↦
          record (subtable_new stream.table_id stream.subtable_extension
            stream.last_section_number) { version_number = stream.version_number }
          ∷ stream.subtables
    ]

-- MPEGTS_BIT_SET of `seen_section`.
abbrev pub mark_seen : ℕ → Subtable → Subtable
mark_seen n sub = record sub { seen_section = λ k. (k == n) || sub.seen_section k }

-- The bytes of the section; NULL has none.
abbrev pub section_bytes : Stream → List ℕ
section_bytes stream =
    take stream.section_length (elim stream.section_data [ none ↦ [] | some section ↦ section ])

module _ {Section : Type 0} (section_new : ℕ → List ℕ → Option Section) where
  -- The section, with its offset, if libgstmpegts accepts it.
  unfoldable pub parse_section_header : Stream → Stream × Option (Section × ℕ)
  parse_section_header stream =
      let subtables = prepare_subtable stream in
      let cleared = clear_section (record stream { section_data = none; subtables = subtables }) in
      elim (section_new stream.pid (section_bytes stream)) [
        | none ↦ (cleared, none)
        | some section ↦ (
          record cleared {
            subtables =
                change_subtable stream.table_id stream.subtable_extension
                  (mark_seen stream.section_number) subtables;
          },
          some (section, stream.offset),
        )
      ]
