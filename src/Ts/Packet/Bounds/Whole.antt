-- ===== src/Ts/Packet/Bounds/Whole.antt =====
-- gst/gst-demux/mpegtspacketizer.c: the bounds of parse_packet.
use helia.Common.{
  ℕ, ◌+◌, ◌*◌, ◌^◌, ◌≤◌, ◌<◌, ◌≡◌, ◌≢◌, refl, ◌⊎◌, inl, inr, Bool-cases, subst, sym, none, some,
  true, false, List, ltb, ◌==◌, length, All, IsByte, arith,
}
use helia.Parsing.{parsed, fault, bit, byte, read_uint16}
use helia.Parsing.Results.{
  Results, Results-parsed, Results-bad, Results-bind, Results-if, Results-either, Results-skip,
}
use helia.Ts.Packet.{
  Log, TsPacket, no_pcr, header_packet, too_long, with_payload, adaptation_field,
  parse_adaptation_field_control, parse_packet, compute_pcr, log_fields, dump_unknown_payload,
}
use helia.Ts.Packet.Bounds.{reach, compute_pcr-Meets}
use helia.Ts.Packet.Bounds.Reads.{IsPacketRead, parse_packet-Meets}

-- Where the fields of a packet of `size` bytes are.
pub record Placed (size : ℕ) (p : TsPacket) : Type 0 where
  pub pid : p.pid < 2 ^ 13
  pub after_header : 4 ≤ p.position
  pub within : p.position ≤ size
  pub pcr : (p.pcr ≡ no_pcr) ⊎ (p.pcr < 2 ^ 33 * 300)

-- The same, and the payload is missing or starts there.
pub record Fits (size : ℕ) (p : TsPacket) : Type 0 where
  pub placed : Placed size p
  pub payload : (p.payload ≡ none) ⊎ (p.payload ≡ some p.position)

with_payload_there :
    (afc_cc : ℕ) (p : TsPacket)
    → bit 4 afc_cc ≡ true
    → with_payload afc_cc p ≡ record p { payload = some p.position }
with_payload_there afc_cc p e = rw e refl

with_payload_missing :
    (afc_cc : ℕ) (p : TsPacket)
    → bit 4 afc_cc ≡ false
    → with_payload afc_cc p ≡ record p { payload = none }
with_payload_missing afc_cc p e = rw e refl

with_payload-Fits :
    {size : ℕ} (afc_cc : ℕ) (p : TsPacket) → Placed size p → Fits size (with_payload afc_cc p)
with_payload-Fits {size} afc_cc p v = elim (Bool-cases (bit 4 afc_cc)) [
  | inl e ↦ subst (Fits size) (sym (with_payload_there afc_cc p e)) (record {
    placed = record { pid = v.pid; after_header = v.after_header; within = v.within; pcr = v.pcr };
    payload = inr refl;
  })
  | inr e ↦ subst (Fits size) (sym (with_payload_missing afc_cc p e)) (record {
    placed = record { pid = v.pid; after_header = v.after_header; within = v.within; pcr = v.pcr };
    payload = inl refl;
  })
]

module _ (memory : List ℕ) (bytes : All IsByte memory) (log : Log) (size : ℕ)
    (room : reach log ≤ length memory) (whole : 5 ≤ size) where
  compute_pcr-Results :
      (k : ℕ) → k + 5 < length memory → Results (λ (t : ℕ). t < 2 ^ 33 * 300) (compute_pcr memory k)
  compute_pcr-Results k h = record { result = (compute_pcr-Meets memory bytes k h).result }

  adaptation_field-Placed :
      (n : ℕ) (p : TsPacket)
      → p.position ≡ 5
      → 5 + n ≤ size
      → Placed size p
      → Results (Placed size) (adaptation_field memory log n p)
  unfolding adaptation_field
  adaptation_field-Placed n p e l v =
      let least : 12 ≤ length memory = ground (arith, room) in
      Results-skip (byte memory p.position) _ λ f.
        Results-if (bit 4 f) _ _
          (Results-bind _ _ (compute_pcr-Results (p.position + 1) (omega (arith, e, least))) λ t b.
            Results-skip (log_fields memory log f (p.position + 7)) _ λ u.
              Results-parsed (record p { position = p.position + n; afc_flags = f; pcr = t })
                (record {
                  pid = v.pid;
                  after_header = omega (arith, e);
                  within = omega (arith, e, l);
                  pcr = inr b;
                }))
          (Results-skip (log_fields memory log f (p.position + 1)) _ λ u.
            Results-parsed (record p { position = p.position + n; afc_flags = f })
              (record {
                pid = v.pid;
                after_header = omega (arith, e);
                within = omega (arith, e, l);
                pcr = v.pcr;
              }))

  parse_adaptation_field_control-Placed :
      (p : TsPacket)
      → p.position ≡ 4
      → Placed size p
      → Results (Placed size) (parse_adaptation_field_control memory log size p)
  unfolding parse_adaptation_field_control
  parse_adaptation_field_control-Placed p e v =
      let here : Placed size (record p { position = p.position + 1 }) = record {
        pid = v.pid;
        after_header = omega (arith, e);
        within = omega (arith, e, whole);
        pcr = v.pcr;
      } in
      Results-skip (byte memory p.position) _ λ n.
        Results-if (n == 0) _ _
          (Results-parsed _ (record {
            pid = v.pid;
            after_header = here.after_header;
            within = here.within;
            pcr = v.pcr;
          }))
          (Results-if (too_long p.scram_afc_cc n) _ _ Results-bad (
            Results-skip
              (dump_unknown_payload memory log size p.scram_afc_cc n (p.position + 1 + n)) _
              λ d.
                Results-either (ltb size (p.position + 1 + n)) _ _ (λ o. Results-bad)
                  λ o. adaptation_field-Placed n _ (omega (arith, e)) (ground (arith, o, e)) here))

  parse_packet-Fits : Results (Fits size) (parse_packet memory log size)
  unfolding parse_packet
  parse_packet-Fits = Results-skip (byte memory 1) _ λ a. Results-if (bit 7 a) _ _ Results-bad (
      Results-skip (read_uint16 memory 1) _ λ w. Results-skip (byte memory 3) _ λ c.
        let header : Placed size (header_packet a w c) = record {
          pid = omega arith;
          after_header = omega arith;
          within = omega (arith, whole);
          pcr = inl refl;
        } in
        Results-if (bit 5 c) _ _
          (Results-bind _ _ (parse_adaptation_field_control-Placed _ refl header)
            λ after v. Results-parsed _ (with_payload-Fits c after v))
          (Results-parsed _ (with_payload-Fits c (header_packet a w c) header)))

-- A packet of at least five bytes is parsed within its first twelve bytes in a build that does not
-- log, and in one that logs within 279 bytes, whatever the adaptation field announces; but where the
-- dumps are printed, which may read the packet to its end, the packet has at least 188 bytes and all
-- of them are readable.
pub parse_packet_safe :
    (memory : List ℕ) (log : Log) (size : ℕ)
    → All IsByte memory
    → reach log ≤ length memory
    → IsPacketRead log size memory
    → parse_packet memory log size ≢ fault
parse_packet_safe memory log size bytes room whole =
    (parse_packet-Meets memory bytes log size room whole).no_fault

-- A packet of at least five bytes that is parsed has a PID of 13 bits; its header and adaptation field end from 4 to `size`
-- bytes on, where its payload starts if it has one; and its PCR is missing or below 2^33 * 300.
pub parse_packet_bounds :
    (memory : List ℕ) (log : Log) (size : ℕ) (p : TsPacket)
    → All IsByte memory
    → reach log ≤ length memory
    → 5 ≤ size
    → parse_packet memory log size ≡ parsed p
    → Fits size p
parse_packet_bounds memory log size p bytes room whole e =
    (parse_packet-Fits memory bytes log size room whole).result p e
