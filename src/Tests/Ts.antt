-- ===== src/Tests/Ts.antt =====
-- Packets of a transport stream at concrete inputs.
use helia.Common.{ℕ, ◌≡◌, ◌≢◌, refl, some, List, ◌∷◌, length, All, IsByte, arith, replicate, ◌≤◌}
use helia.Parsing.{parsed, fault, read_uint16}
use helia.Ts.Packet.{disabled, silent, TsPacket, no_pcr, parse_packet}
use helia.Ts.Packet.Bounds.{reach}
use helia.Ts.Packet.Bounds.Whole.{Fits, parse_packet_safe, parse_packet_bounds}
use helia.Ts.Packet.Layout.{payload_packet, parse_packet_overread}

abbrev packet : List ℕ
packet = payload_packet 1 0x100 0 5 (replicate 184 7)

abbrev packet_fields : TsPacket
packet_fields = record {
  pid = 0x100;
  payload_unit_start_indicator = 64;
  scram_afc_cc = 21;
  scrambling = 0;
  position = 4;
  payload = some 4;
  afc_flags = 0;
  pcr = no_pcr;
}

packet-IsByte : All IsByte packet
unfolding payload_packet
packet-IsByte = ground arith

packet-length : reach disabled ≤ length packet
unfolding payload_packet
packet-length = omega arith

packet_parsed : parse_packet packet disabled 188 ≡ parsed packet_fields
unfolding payload_packet parse_packet read_uint16
packet_parsed = refl

parse_packet_overread_example :
    parse_packet (0x47 ∷ 0 ∷ 0 ∷ 0x30 ∷ 10 ∷ 0x03 ∷ 200 ∷ replicate 181 0) silent 188 ≡ fault
parse_packet_overread_example =
    parse_packet_overread 0 0 10 200 (replicate 181 0) (omega arith) (omega arith) (omega arith)
      refl (omega arith)

parse_packet_safe_example : parse_packet packet disabled 188 ≢ fault
parse_packet_safe_example =
    parse_packet_safe packet disabled 188 packet-IsByte packet-length (omega arith)

parse_packet_bounds_example : Fits 188 packet_fields
parse_packet_bounds_example =
    parse_packet_bounds packet disabled 188 packet_fields packet-IsByte packet-length (omega arith)
      packet_parsed
