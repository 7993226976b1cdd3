-- ===== src/Ts/Packet/Bounds/Reads.antt =====
-- gst/gst-demux/mpegtspacketizer.c: parse_packet stays within the memory.
use helia.Common.{
  ℕ, ◌+◌, ◌/◌, ◌%◌, ◌^◌, ◌-◌, ◌≤◌, ◌≡◌, refl, false, ltb, List, ◌==◌, length, All, IsByte, arith,
}
use helia.Parsing.{bit}
use helia.Parsing.Meets.{
  Meets, Meets-parsed, Meets-bad, Meets-bind, Meets-if, Meets-byte, Meets-uint16,
}
use helia.Ts.Packet.{
  Log, disabled, silent, printed, TsPacket, too_long, dump, dump_unknown_payload, adaptation_field,
  parse_adaptation_field_control, parse_packet,
}
use helia.Ts.Packet.Bounds.{reach, Any, compute_pcr-Meets, dump-Meets, log_fields-Meets}

-- The size of a packet, which is 188 at least and within the memory if dumps are printed.
abbrev pub IsPacketRead : Log → ℕ → List ℕ → Type 0
IsPacketRead printed size memory = (188 ≤ size) × (size ≤ length memory)
IsPacketRead _ size memory = 5 ≤ size

-- The dump of what is left of a packet from a position in it on.
dump_within :
    (memory : List ℕ) (bytes : All IsByte memory) (log : Log) (size k : ℕ)
    → IsPacketRead log size memory
    → k ≤ 188
    → Meets Any (dump memory log k ((size + 2 ^ 32 - k) % 2 ^ 32))
unfolding dump Any
dump_within memory bytes disabled size k whole h = Meets-parsed tt tt
dump_within memory bytes silent size k whole h = Meets-parsed tt tt
dump_within memory bytes printed size k (least, most) h =
    dump-Meets memory bytes printed k _ (omega (arith, least, most, h))

module _ (memory : List ℕ) (bytes : All IsByte memory) (log : Log) (size : ℕ)
    (room : reach log ≤ length memory) (whole : IsPacketRead log size memory) where
  dump_unknown_payload-Meets :
      (afc_cc n k : ℕ)
      → k ≡ 5 + n
      → too_long afc_cc n ≡ false
      → Meets Any (dump_unknown_payload memory log size afc_cc n k)
  unfolding dump_unknown_payload Any
  dump_unknown_payload-Meets afc_cc n k e t =
      Meets-if (afc_cc / 16 % 4 == 2) _ _
        (λ two.
          Meets-if (n == 183) _ _ (λ all. Meets-parsed tt tt)
            λ fewer. dump_within memory bytes log size k whole (ground (arith, two, t, e)))
        λ other. Meets-parsed tt tt

  adaptation_field-Meets :
      (n : ℕ) (p : TsPacket)
      → p.position ≡ 5
      → Meets (λ (q : TsPacket). Unit {0}) (adaptation_field memory log n p)
  unfolding adaptation_field
  adaptation_field-Meets n p e =
      let least : 12 ≤ length memory = ground (arith, room) in
      Meets-bind _ _ (Meets-byte memory p.position bytes (omega (arith, e, least))) λ f g.
        Meets-if (bit 4 f) _ _
          (λ c.
            Meets-bind _ _
              (compute_pcr-Meets memory bytes (p.position + 1) (omega (arith, e, least)))
              λ t b.
                Meets-bind _ _
                  (log_fields-Meets memory bytes log f (p.position + 7) (omega (arith, e)) room)
                  λ u w. Meets-parsed _ tt)
          λ c.
            Meets-bind _ _
              (log_fields-Meets memory bytes log f (p.position + 1) (omega (arith, e)) room)
              λ u w. Meets-parsed _ tt

  parse_adaptation_field_control-Meets :
      (p : TsPacket)
      → p.position ≡ 4
      → Meets (λ (q : TsPacket). Unit {0}) (parse_adaptation_field_control memory log size p)
  unfolding parse_adaptation_field_control
  parse_adaptation_field_control-Meets p e =
      let least : 12 ≤ length memory = ground (arith, room) in
      Meets-bind _ _ (Meets-byte memory p.position bytes (omega (arith, e, least))) λ n b.
        Meets-if (n == 0) _ _ (λ z. Meets-parsed _ tt)
          λ z.
            Meets-if (too_long p.scram_afc_cc n) _ _ (λ t. Meets-bad)
              λ t.
                Meets-bind _ _
                  (dump_unknown_payload-Meets p.scram_afc_cc n (p.position + 1 + n)
                    (omega (arith, e)) t)
                  λ d w.
                    Meets-if (ltb size (p.position + 1 + n)) _ _ (λ o. Meets-bad)
                      λ o. adaptation_field-Meets n _ (omega (arith, e))

  pub parse_packet-Meets : Meets (λ (q : TsPacket). Unit {0}) (parse_packet memory log size)
  unfolding parse_packet
  parse_packet-Meets =
      let least : 12 ≤ length memory = ground (arith, room) in
      Meets-bind _ _ (Meets-byte memory 1 bytes (omega (arith, least))) λ a p.
        Meets-if (bit 7 a) _ _ (λ e. Meets-bad)
          λ e. Meets-bind _ _ (Meets-uint16 memory bytes 1 (omega (arith, least))) λ w q.
            Meets-bind _ _ (Meets-byte memory 3 bytes (omega (arith, least))) λ c r.
              Meets-if (bit 5 c) _ _
                (λ d.
                  Meets-bind _ _ (parse_adaptation_field_control-Meets _ refl)
                    λ after v. Meets-parsed _ tt)
                λ d. Meets-parsed _ tt
