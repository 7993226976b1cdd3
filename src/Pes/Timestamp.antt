-- ===== src/Pes/Timestamp.antt =====
-- gst/gst-demux/gstmpegdefs.h, READ_TS, and pesparse.c on whole headers, against the layout in
-- ISO/IEC 13818-1.
use helia.Parsing.{fault, parsed, read_uint16, read_uint32}
use helia.Common.{
  ℕ, ◌+◌, ◌*◌, ◌/◌, ◌%◌, ◌^◌, ◌<◌, ◌≡◌, false, List, [], ◌∷◌, ◌==◌, if◌then◌else◌, length, arith,
}
use helia.Pes.Header.{header_clear}
use helia.Pes.Parse.{
  read_ts, timestamp_stage, es_rate_stage, trick_mode_stage, copy_info_stage, crc_stage,
}
use helia.Pes.Extension.{is_plain, extension_stage, optional_fields, parse_flags, parse_pes_header}

-- Four bits of prefix, then 3, 15 and 15 bits of the timestamp, each with a marker bit.
unfoldable pub timestamp_bytes : ℕ → ℕ → List ℕ → List ℕ
timestamp_bytes prefix t rest =
    (prefix * 16 + t / 2 ^ 30 * 2 + 1)
    ∷ t / 2 ^ 22 % 256
    ∷ (t / 2 ^ 15 % 128 * 2 + 1)
    ∷ t / 2 ^ 7 % 256
    ∷ (t % 128 * 2 + 1)
    ∷ rest

-- A packet with a PTS and nothing else in its header.
unfoldable pub pes_packet : ℕ → ℕ → ℕ → List ℕ → List ℕ
pes_packet id size t payload =
    0 ∷ 0 ∷ 1 ∷ id ∷ size / 256 ∷ size % 256 ∷ 0x80 ∷ 0x80 ∷ 5 ∷ timestamp_bytes 2 t payload

-- A timestamp of 33 bits is read back from its bytes.
pub read_ts-timestamp_bytes :
    (prefix t : ℕ) (rest : List ℕ)
    → t < 2 ^ 33
    → read_ts (timestamp_bytes prefix t rest) 0 ≡ parsed t
unfolding read_ts timestamp_bytes
read_ts-timestamp_bytes prefix t rest h = ground arith

-- The header of a packet with a PTS is parsed as it was laid out.
pub parse_pes_header-pes_packet :
    (id size t : ℕ) (payload : List ℕ)
    → id < 256
    → is_plain id ≡ false
    → size < 2 ^ 16
    → t < 2 ^ 33
    → parse_pes_header (pes_packet id size t payload) (14 + length payload)
      ≡ parsed (record (header_clear) {
        stream_id = id;
        packet_length = if size == 0 then 0 else size + 6;
        header_size = 14;
        pts = t;
      })
unfolding parse_pes_header parse_flags optional_fields timestamp_stage es_rate_stage
    trick_mode_stage copy_info_stage crc_stage extension_stage read_uint16 read_uint32 read_ts
    pes_packet timestamp_bytes
parse_pes_header-pes_packet id size t payload i p s h = ground (arith, p)

-- A packet that ends with its ES_rate is read past its end, whatever the three bytes are.
pub es_rate_overread :
    (id high low a b c : ℕ)
    → id < 256
    → is_plain id ≡ false
    → parse_pes_header (0 ∷ 0 ∷ 1 ∷ id ∷ high ∷ low ∷ 0x80 ∷ 0x10 ∷ 3 ∷ a ∷ b ∷ c ∷ []) 12 ≡ fault
unfolding parse_pes_header parse_flags optional_fields timestamp_stage es_rate_stage read_uint16
    read_uint32
es_rate_overread id high low a b c i p = ground (arith, p)
