-- ===== src/Pes/Extension.antt =====
-- gst/gst-demux/pesparse.c: the PES extension, and mpegts_parse_pes_header as a whole.
use helia.Parsing.{Parse, bad, bit, byte, need_more, parsed, read_uint16, read_uint32, ◌>>=◌}
use helia.Common.{
  ℕ, ◌+◌, ◌-◌, ◌*◌, ◌/◌, ◌%◌, ◌^◌, Bool, not, ◌&&◌, ◌||◌, some, List, ltb, leb, ◌==◌, if◌then◌else◌,
}
use helia.Pes.Header.{PesHeader, header_clear}
use helia.Pes.Parse.{
  PesState, skip, timestamp_stage, es_rate_stage, trick_mode_stage, copy_info_stage, crc_stage,
}

-- What is left of the extension field from an offset on.
abbrev pub field_data : ℕ → ℕ → PesHeader → PesHeader
field_data position left h =
    if left == 0
    then record h { extension_field_length = left }
    else record h { extension_field_length = left; stream_id_extension_data = some position }

-- From the flags of the extension field on; `size` is its length with them.
abbrev pub extension_field : ℕ → ℕ → ℕ → PesHeader → PesHeader
extension_field flags position size h =
    if not (bit 7 flags)
    then field_data position (size - 1) (record h { stream_id_extension = flags })
    else if bit 0 flags
    then field_data position (size - 1) h
    else if ltb (size - 1) 5
    then record h { extension_field_length = size - 1 }
    else field_data (position + 5) (size - 6) h

-- The stream ids that have no more than the start of a header.
abbrev pub is_plain : ℕ → Bool
is_plain id =
    id == 0xBC
    || id == 0xBE
    || id == 0xBF
    || (leb 0xF0 id && leb id 0xF2)
    || id == 0xFF
    || id == 0xF8

module _ (memory : List ℕ) where
  unfoldable pub private_data_stage : ℕ → PesState → Parse PesState
  private_data_stage flags s =
      if not (bit 7 flags)
      then parsed s
      else if ltb s.length 16
      then need_more
      else parsed (skip 16 (record (s.header) { private_data = some s.position }) s)

  unfoldable pub pack_header_stage : ℕ → PesState → Parse PesState
  pack_header_stage flags s =
      if not (bit 6 flags) then parsed s else if ltb s.length 1 then need_more else (do
        val8 ← byte memory s.position
        if ltb (s.length - 1) val8
            then need_more
            else parsed (
                skip (1 + val8)
                  (record (s.header) {
                    pack_header_size = val8;
                    pack_header = some (s.position + 1);
                  })
                  s))

  unfoldable pub sequence_stage : ℕ → PesState → Parse PesState
  sequence_stage flags s =
      if not (bit 5 flags) then parsed s else if ltb s.length 2 then need_more else (do
        counter ← byte memory s.position
        if not (bit 7 counter) then bad else (do
          stuffing ← byte memory (s.position + 1)
          if not (bit 7 stuffing)
              then bad
              else parsed (
                  skip 2
                    (record (s.header) {
                      program_packet_sequence_counter = counter % 2 ^ 7;
                      mpeg1_mpeg2_identifier = stuffing / 2 ^ 6 % 2;
                      original_stuff_length = stuffing % 2 ^ 6;
                    })
                    s)))

  unfoldable pub p_std_stage : ℕ → PesState → Parse PesState
  p_std_stage flags s =
      if not (bit 4 flags) then parsed s else if ltb s.length 2 then need_more else (do
        val8 ← byte memory s.position
        if not (val8 / 2 ^ 6 == 1) then bad else (do
          word ← read_uint16 memory s.position
          let size = word % 2 ^ 13 * (if bit 5 val8 then 2 ^ 10 else 2 ^ 7)
          parsed (skip 2 (record (s.header) { p_std_buffer_size = size }) s)))

  unfoldable pub extension_2_stage : PesState → Parse PesState
  extension_2_stage s = if ltb s.length 1 then need_more else (do
    val8 ← byte memory s.position
    let size = val8 % 2 ^ 7
    if not (bit 7 val8)
        then bad
        else if size == 0
        then parsed (skip 1 (record (s.header) { extension_field_length = 0 }) s)
        else if ltb (s.length - 1) size
        then need_more
        else (do
          flags ← byte memory (s.position + 1)
          parsed (skip 2 (extension_field flags (s.position + 2) size s.header) s)))

  unfoldable pub extension_stage : ℕ → PesState → Parse PesState
  extension_stage flags s =
      if not (bit 0 flags) then parsed s else if ltb s.length 1 then need_more else (do
        flags_2 ← byte memory s.position
        s₁ ← private_data_stage flags_2 (skip 1 s.header s)
        s₂ ← pack_header_stage flags_2 s₁
        s₃ ← sequence_stage flags_2 s₂
        s₄ ← p_std_stage flags_2 s₃
        if not (bit 0 flags_2) then parsed s₄ else extension_2_stage s₄)

  -- The fields that the second byte of flags announces.
  unfoldable pub optional_fields : ℕ → PesState → Parse PesState
  optional_fields flags s = do
    s₁ ← timestamp_stage memory (bit 7 flags) (λ t h. record h { pts = t }) s
    s₂ ← timestamp_stage memory (bit 6 flags) (λ t h. record h { dts = t }) s₁
    s₃ ← timestamp_stage memory (bit 5 flags) (λ t h. record h { escr = t }) s₂
    s₄ ← es_rate_stage memory flags s₃
    s₅ ← trick_mode_stage memory flags s₄
    s₆ ← copy_info_stage memory flags s₅
    s₇ ← crc_stage memory flags s₆
    extension_stage flags s₇

  -- From the first byte of flags on, with `length` bytes from there.
  unfoldable pub parse_flags : PesHeader → ℕ → Parse PesHeader
  parse_flags h length = if ltb length 3 then need_more else (do
    val8 ← byte memory 6
    if not (val8 / 2 ^ 6 == 2) then bad else (do
      flags ← byte memory 7
      size ← byte memory 8
      if ltb (length - 3) size then need_more else (do
        s ← optional_fields flags (record {
          position = 9;
          length = length - 3;
          header = record h {
            scrambling_control = val8 / 2 ^ 4 % 2 ^ 2;
            flags = val8 % 2 ^ 4;
            header_size = size + 9;
          };
        })
        parsed s.header)))

  -- mpegts_parse_pes_header.
  unfoldable pub parse_pes_header : ℕ → Parse PesHeader
  parse_pes_header length = if ltb length 6 then need_more else (do
    val32 ← read_uint32 memory 0
    if not (val32 / 2 ^ 8 == 1) then bad else (do
      word ← read_uint16 memory 4
      let id = val32 % 2 ^ 8
      let h = record (header_clear) {
        stream_id = id;
        packet_length = if word == 0 then 0 else word + 6;
      }
      if is_plain id then parsed (record h { header_size = 6 }) else parse_flags h (length - 6)))
