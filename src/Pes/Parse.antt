-- ===== src/Pes/Parse.antt =====
-- gst/gst-demux/pesparse.c: mpegts_parse_pes_header in stages, one for each field. `memory` is what
-- may be read from the sync code on. Disjoint bits that the source joins with `|` are added.
use helia.Parsing.{bit, byte, read_uint16, read_uint32, Parse, bad, need_more, parsed, ◌>>=◌}
use helia.Common.{
  ℕ, ◌+◌, ◌-◌, ◌*◌, ◌/◌, ◌%◌, ◌^◌, Bool, not, ◌&&◌, ◌||◌, List, ltb, ◌==◌, if◌then◌else◌,
}
use helia.Pes.Header.{PesHeader}

-- `data` as an offset, `length` and `*res`.
pub record PesState : Type 0 where
  pub position : ℕ
  pub length : ℕ
  pub header : PesHeader

-- `data += n; length -= n`.
abbrev pub skip : ℕ → PesHeader → PesState → PesState
skip n header s = record { position = s.position + n; length = s.length - n; header = header }

-- The `switch` on the trick mode, with the constants of the enumeration, which are hexadecimal.
abbrev pub trick_fields : ℕ → PesHeader → PesHeader
trick_fields val8 h =
    let mode = val8 / 2 ^ 5 in
    let field_id = val8 / 2 ^ 3 % 2 ^ 2 in
    if mode == 0x000 || mode == 0x011
    then record h {
      trick_mode = mode;
      intra_slice_refresh = val8 / 2 ^ 2 % 2;
      frequency_truncation = val8 % 2 ^ 2;
      field_id = field_id;
    }
    else if mode == 0x010
    then record h { trick_mode = mode; field_id = field_id }
    else if mode == 0x001 || mode == 0x100
    then record h { trick_mode = mode; rep_cntrl = val8 % 2 ^ 5 }
    else record h { trick_mode = mode }

module _ (memory : List ℕ) where
  -- READ_TS.
  unfoldable pub read_ts : ℕ → Parse ℕ
  read_ts k = do
    a ← byte memory k
    if not (bit 0 a) then bad else (do
      b ← byte memory (k + 1)
      c ← byte memory (k + 2)
      if not (bit 0 c) then bad else (do
        d ← byte memory (k + 3)
        e ← byte memory (k + 4)
        if not (bit 0 e)
            then bad
            else parsed (
                a / 2 % 2 ^ 3 * 2 ^ 30
                + b * 2 ^ 22
                + c / 2 % 2 ^ 7 * 2 ^ 15
                + d * 2 ^ 7
                + e / 2 % 2 ^ 7)))

  -- A PTS, a DTS or an ESCR, stored by `store`.
  unfoldable pub timestamp_stage : Bool → (ℕ → PesHeader → PesHeader) → PesState → Parse PesState
  timestamp_stage present store s =
      if not present
      then parsed s
      else if ltb s.length 5
      then need_more
      else (do t ← read_ts s.position; parsed (skip 5 (store t s.header) s))

  -- Four bytes are read for a field of three.
  unfoldable pub es_rate_stage : ℕ → PesState → Parse PesState
  es_rate_stage flags s =
      if not (bit 4 flags) then parsed s else if ltb s.length 3 then need_more else (do
        val32 ← read_uint32 memory s.position
        if not (bit 31 val32 && bit 8 val32)
            then bad
            else parsed (skip 3 (record (s.header) { es_rate = val32 / 2 ^ 9 % 2 ^ 22 * 50 }) s))

  unfoldable pub trick_mode_stage : ℕ → PesState → Parse PesState
  trick_mode_stage flags s =
      if not (bit 3 flags)
      then parsed s
      else if ltb s.length 1
      then need_more
      else (do val8 ← byte memory s.position; parsed (skip 1 (trick_fields val8 s.header) s))

  unfoldable pub copy_info_stage : ℕ → PesState → Parse PesState
  copy_info_stage flags s =
      if not (bit 2 flags) then parsed s else if ltb s.length 1 then need_more else (do
        val8 ← byte memory s.position
        if not (bit 7 val8)
            then bad
            else parsed (skip 1 (record (s.header) { additional_copy_info = val8 % 2 ^ 7 }) s))

  unfoldable pub crc_stage : ℕ → PesState → Parse PesState
  crc_stage flags s =
      if not (bit 1 flags) then parsed s else if ltb s.length 2 then need_more else (do
        crc ← read_uint16 memory s.position
        parsed (skip 2 (record (s.header) { previous_pes_packet_crc = crc }) s))
