-- ===== src/Ts/Packet/Layout.antt =====
-- gst/gst-demux/mpegtspacketizer.c against the layout of packets in ISO/IEC 13818-1.
use helia.Common.{
  ℕ, suc, zero, ◌+◌, ◌*◌, ◌/◌, ◌%◌, ◌^◌, ◌≤◌, ◌<◌, ◌≡◌, refl, none, some, List, [], ◌∷◌, ◌==◌,
  if◌then◌else◌, length, get_elem?, arith,
}
use helia.Parsing.{parsed, fault, read_uint16, read_uint32}
use helia.Ts.Packet.{
  Log, silent, no_pcr, compute_pcr, log_extension, log_private_data, log_splicing_point, log_fields,
  adaptation_field, parse_adaptation_field_control, parse_packet, dump, dump_unknown_payload,
}

-- A program clock reference: 33 bits of base, 6 reserved bits, 9 bits of extension.
unfoldable pub pcr_bytes : ℕ → ℕ → List ℕ → List ℕ
pcr_bytes base extension rest =
    base / 2 ^ 25
    ∷ base / 2 ^ 17 % 256
    ∷ base / 2 ^ 9 % 256
    ∷ base / 2 % 256
    ∷ (base % 2 * 128 + 126 + extension / 256)
    ∷ extension % 256
    ∷ rest

-- A PCR is read back from its bytes, in units of 27 MHz.
pub compute_pcr-pcr_bytes :
    (base extension : ℕ) (rest : List ℕ)
    → base < 2 ^ 33
    → extension < 300
    → compute_pcr (pcr_bytes base extension rest) 0 ≡ parsed (base * 300 + extension)
unfolding compute_pcr pcr_bytes read_uint16 read_uint32
compute_pcr-pcr_bytes base extension rest b e = ground arith

-- A packet without an adaptation field.
unfoldable pub payload_packet : ℕ → ℕ → ℕ → ℕ → List ℕ → List ℕ
payload_packet start pid scrambling counter payload =
    0x47 ∷ (start * 64 + pid / 256) ∷ pid % 256 ∷ (scrambling * 64 + 16 + counter) ∷ payload

-- A packet with a payload and no adaptation field is parsed as it was laid out: its payload starts
-- behind the four bytes of the header.
pub parse_packet-payload_packet :
    (log : Log) (size start pid scrambling counter : ℕ) (payload : List ℕ)
    → start < 2
    → pid < 2 ^ 13
    → scrambling < 4
    → counter < 16
    → parse_packet (payload_packet start pid scrambling counter payload) log size
      ≡ parsed (record {
        pid = pid;
        payload_unit_start_indicator = start * 64;
        scram_afc_cc = scrambling * 64 + 16 + counter;
        scrambling = if scrambling == 0 then 0 else 1;
        position = 4;
        payload = some 4;
        afc_flags = 0;
        pcr = no_pcr;
      })
unfolding parse_packet payload_packet read_uint16
parse_packet-payload_packet log size start pid scrambling counter payload s p c k = ground arith

get_elem?-none : (xs : List ℕ) (k : ℕ) → length xs ≤ k → get_elem? xs k ≡ none
get_elem?-none [] k h = refl
get_elem?-none (x ∷ xs) zero h = absurd (omega arith)
get_elem?-none (x ∷ xs) (suc k) h = get_elem?-none xs k (omega arith)

-- In a build that logs, a packet of 188 bytes is read past its end if the length of its private
-- data reaches its end and an extension is announced.
pub parse_packet_overread :
    (high low size private_length : ℕ) (rest : List ℕ)
    → high < 128
    → 0 < size
    → size ≤ 182
    → length rest ≡ 181
    → 181 ≤ private_length
    → parse_packet (0x47 ∷ high ∷ low ∷ 0x30 ∷ size ∷ 0x03 ∷ private_length ∷ rest) silent 188
      ≡ fault
unfolding parse_packet parse_adaptation_field_control adaptation_field log_fields log_splicing_point
    log_private_data log_extension dump dump_unknown_payload read_uint16
parse_packet_overread high low size k rest h a b l p =
    ground (arith, get_elem?-none rest k (omega arith))
