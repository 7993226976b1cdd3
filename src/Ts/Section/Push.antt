-- ===== src/Ts/Section/Push.antt =====
-- gst/gst-demux/mpegtspacketizer.c: `mpegts_packetizer_push_section`. Positions are those in the bytes
-- from `packet->data` to `packet->data_end`.
use helia.Common.{
  ℕ, zero, suc, ◌+◌, ◌-◌, ◌%◌, ◌/◌, ◌^◌, not, ◌&&◌, Option, none, some, List, [], ◌∷◌, ◌++◌, ltb,
  ◌==◌, if◌then◌else◌, length, take, drop, poke, zeros,
}
use helia.Parsing.{Parse, parsed, need_more, fault, ◌>>=◌, bit, byte, read_uint16}
use helia.Ts.Section.{
  Stream, Header, continuity_unset, seen_section_before, stream_new, clear_section,
  parse_section_header,
}

-- The packet's fields that are used; `bytes` are those from `data` on.
pub record Payload : Type 0 where
  pub pid : ℕ
  pub payload_unit_start_indicator : ℕ
  pub scram_afc_cc : ℕ
  pub offset : ℕ
  pub bytes : List ℕ

-- What the loop has: the stream, the sections so far in order, with their offsets, and the position
-- that is left in `packet->data`.
pub record Work (Section : Type 0) : Type 0 where
  pub stream : Stream
  pub sections : List (Section × ℕ)
  pub position : ℕ

abbrev pub min : ℕ → ℕ → ℕ
min a b = if ltb b a then b else a

abbrev pub sub32 : ℕ → ℕ → ℕ
sub32 a b = (a + 2 ^ 32 - b) % 2 ^ 32

abbrev pub with_section : {Section : Type 0} → List Section → Option Section → List Section
with_section sections none = sections
with_section sections (some section) = sections ++ (section ∷ [])

-- memcpy into the section's memory; NULL has none.
unfoldable pub store_in : Option (List ℕ) → List ℕ → Stream → Parse Stream
store_in none bytes stream = fault
store_in (some section) bytes stream = elim (poke stream.section_offset bytes section) [
  | none ↦ fault
  | some written ↦ parsed (record stream {
    section_data = some written;
    section_offset = (stream.section_offset + length bytes) % 2 ^ 16;
  })
]

abbrev pub store : List ℕ → Stream → Parse Stream
store bytes stream = store_in stream.section_data bytes stream

-- The memory of a section before anything is written to it.
abbrev pub begin_stream : Header → ℕ → Stream → Stream
begin_stream h offset stream = record stream {
  table_id = h.table_id;
  section_length = h.section_length;
  version_number = h.version_number;
  subtable_extension = h.subtable_extension;
  section_number = h.section_number;
  last_section_number = h.last_section_number;
  offset = offset;
  section_data = some (zeros h.section_length);
  section_offset = 0;
}

module _ {Section : Type 0} (section_new : ℕ → List ℕ → Option Section) (packet : Payload) where
  -- The continuation at `section_start`, from a position on.
  abbrev pub Again : Type 0
  Again = ℕ → Work Section → Parse (Work Section)

  -- accumulate_data, from `data_start` on.
  unfoldable pub accumulate_data : Again → ℕ → Work Section → Parse (Work Section)
  accumulate_data again data_start w = do
    let stream = record w.stream { continuity_counter = packet.scram_afc_cc % 16 }
    let to_read =
        min (sub32 stream.section_length stream.section_offset) (length packet.bytes - data_start)
    stored ← store (take to_read (drop data_start packet.bytes)) stream
    let next = data_start + to_read
    let (after, section) = parse_section_header section_new stored
    if ltb stored.section_offset stored.section_length
        then parsed (record w { stream = stored; position = next })
        else again next (record w {
          stream = after;
          sections = with_section w.sections section;
          position = next;
        })

  -- The rest of a section's bytes is skipped; another section may follow.
  unfoldable pub next_section : Again → ℕ → Work Section → Parse (Work Section)
  next_section again next w =
      if ltb next (length packet.bytes)
      then (do
        b ← byte packet.bytes next
        if b == 0xff then parsed (record w { position = next }) else again next w)
      else parsed (record w { position = next })

  -- A section whose header was read up to `next`.
  unfoldable pub begin_section : Again → ℕ → ℕ → Header → Work Section → Parse (Work Section)
  begin_section again data_start next h w =
      if seen_section_before w.stream h
      then next_section again (data_start + min h.section_length (length packet.bytes - data_start))
          w
      else if ltb h.last_section_number h.section_number
      then parsed (record w { position = next })
      else accumulate_data again data_start
          (record w { stream = begin_stream h packet.offset w.stream })

  -- The rest of the header of a long section.
  unfoldable pub long_section : Again → ℕ → ℕ → ℕ → Work Section → Parse (Work Section)
  long_section again k table_id section_length w =
      if ltb (length packet.bytes) (k + 3 + 5) then parsed (record w { position = k + 3 }) else (do
        subtable_extension ← read_uint16 packet.bytes (k + 3)
        version ← byte packet.bytes (k + 5)
        if bit 0 version
            then (do
              section_number ← byte packet.bytes (k + 6)
              last_section_number ← byte packet.bytes (k + 7)
              begin_section again k (k + 8)
                  (record {
                    table_id = table_id;
                    section_length = section_length;
                    subtable_extension = subtable_extension;
                    version_number = version / 2 % 32;
                    section_number = section_number;
                    last_section_number = last_section_number;
                  })
                  w)
            else parsed (record w { position = k + 5 }))

  -- A short section: as a whole if it ends before the packet does.
  unfoldable pub short_section : Again → ℕ → ℕ → ℕ → Work Section → Parse (Work Section)
  short_section again k table_id section_length w =
      if ltb section_length (length packet.bytes - k)
      then (let section : Option (Section × ℕ) =
            elim (section_new packet.pid (take section_length (drop k packet.bytes))) [
              | none ↦ none
              | some s ↦ some (s, packet.offset)
            ] in
          next_section again (k + section_length)
            (record w { sections = with_section w.sections section }))
      else begin_section again k (k + 3)
          (record {
            table_id = table_id;
            section_length = section_length;
            subtable_extension = 0;
            version_number = 0;
            section_number = 0;
            last_section_number = 0;
          })
          w

  -- section_start, with the rounds that are left; `need_more` is no behaviour of the code: the loop ran
  -- out of fuel.
  unfoldable pub section_start : ℕ → ℕ → Work Section → Parse (Work Section)
  section_start zero k w = need_more
  section_start (suc fuel) k w =
      let stuffing = record w { stream = clear_section w.stream; position = k } in
      if ltb (length packet.bytes) (k + 3) then parsed stuffing else (do
        table_id ← byte packet.bytes k
        if table_id == 0xff then parsed stuffing else (do
          flags ← byte packet.bytes (k + 1)
          word ← read_uint16 packet.bytes (k + 1)
          let section_length = word % 4096 + 3
          if bit 7 flags
              then long_section (section_start fuel) k table_id section_length w
              else short_section (section_start fuel) k table_id section_length w))

  -- The checks before the loop, for a stream that is there.
  unfoldable pub push_stream : ℕ → Stream → Parse (Work Section)
  push_stream fuel stream =
      let in_order =
        not (stream.continuity_counter == continuity_unset)
        && (stream.continuity_counter + 1) % 16 == packet.scram_afc_cc % 16 in
      let work : Work Section = record { stream = stream; sections = []; position = 0 } in
      let cleared = record work { stream = clear_section stream } in
      if packet.payload_unit_start_indicator == 0
      then (if in_order then accumulate_data (section_start fuel) 0 work else parsed cleared)
      else (do
        pointer ← byte packet.bytes 0
        if pointer == 0
            then section_start fuel 1 cleared
            else if in_order
            then accumulate_data (section_start fuel) 1 work
            else section_start fuel (1 + pointer) cleared)

  -- `mpegts_packetizer_push_section` with the table of streams, whose missing ones are NULL.
  unfoldable pub push_section :
      ℕ → (ℕ → Option Stream) → Parse ((ℕ → Option Stream) × List (Section × ℕ))
  push_section fuel streams =
      let with_stream = λ (stream : Stream). push_stream fuel stream >>= λ w.
      parsed
        ((λ (pid : ℕ). if pid == packet.pid then some w.stream else streams pid), w.sections) in
      elim (streams packet.pid) [
        | none ↦
            if packet.payload_unit_start_indicator == 0
            then parsed (streams, [])
            else with_stream (stream_new packet.pid)
        | some stream ↦ with_stream stream
      ]
