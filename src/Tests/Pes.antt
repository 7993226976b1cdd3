-- ===== src/Tests/Pes.antt =====
-- PES headers at concrete inputs.
use helia.Parsing.{read_uint16, read_uint32, fault, parsed}
use helia.Common.{
  ℕ, ◌+◌, ◌<◌, ◌≡◌, ◌≢◌, refl, List, [], ◌∷◌, length, All, IsByte, arith, if◌then◌else◌, ◌==◌,
}
use helia.Pes.Header.{PesHeader, header_clear}
use helia.Pes.Parse.{
  timestamp_stage, es_rate_stage, trick_mode_stage, copy_info_stage, crc_stage, read_ts,
}
use helia.Pes.Extension.{parse_flags, optional_fields, extension_stage, parse_pes_header}
use helia.Pes.Bounds.Whole.{Within, parse_pes_header_safe, parse_pes_header_bounds}
use helia.Pes.Timestamp.{timestamp_bytes, pes_packet, parse_pes_header-pes_packet}

abbrev pub packet : List ℕ
packet = pes_packet 0xE0 8 90000 (7 ∷ 8 ∷ [])

abbrev pub packet_header : PesHeader
packet_header = record (header_clear) {
  stream_id = 0xE0;
  packet_length = 14;
  header_size = 14;
  pts = 90000;
}

pub packet-IsByte : All IsByte packet
unfolding pes_packet timestamp_bytes
packet-IsByte = ground arith

pub packet-length : 15 < length packet
unfolding pes_packet timestamp_bytes
packet-length = omega arith

-- All but the last byte of the packet.
pub packet_parsed : parse_pes_header packet 15 ≡ parsed packet_header
unfolding parse_pes_header parse_flags optional_fields timestamp_stage es_rate_stage
    trick_mode_stage copy_info_stage crc_stage extension_stage read_uint16 read_uint32 read_ts
    pes_packet timestamp_bytes
packet_parsed = refl

parse_pes_header_safe_example : parse_pes_header packet 15 ≢ fault
parse_pes_header_safe_example = parse_pes_header_safe packet 15 packet-IsByte packet-length

parse_pes_header_bounds_example : Within 15 packet_header
parse_pes_header_bounds_example =
    parse_pes_header_bounds packet 15 packet_header packet-IsByte packet-length packet_parsed

parse_pes_header-pes_packet_example :
    parse_pes_header packet (14 + 2)
    ≡ parsed (record (header_clear) {
      stream_id = 0xE0;
      packet_length = if 8 == 0 then 0 else 8 + 6;
      header_size = 14;
      pts = 90000;
    })
parse_pes_header-pes_packet_example =
    parse_pes_header-pes_packet 0xE0 8 90000 (7 ∷ 8 ∷ []) (omega arith) refl (omega arith)
      (omega arith)
