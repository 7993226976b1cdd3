-- ===== src/Ts/Packet.antt =====
-- gst/gst-demux/mpegtspacketizer.c: parsing one packet. `memory` is what may be read from
-- `data_start` on, `size` is `data_end - data_start`, and positions are offsets from there. The
-- tables of PCRs that a packet with a PCR goes to are left out. Disjoint bits are added.
use helia.Common.{
  ℕ, ◌+◌, ◌-◌, ◌*◌, ◌/◌, ◌%◌, ◌^◌, Bool, true, false, ◌&&◌, Option, none, some, List, ltb, ◌==◌,
  if◌then◌else◌, length,
}
use helia.Parsing.{Parse, parsed, bad, fault, ◌>>=◌, bit, byte, read_uint16, read_uint32}
pub mod Bounds
pub mod Layout

-- What logging does: nothing in a build without it; else the bytes of a message, or of a dump, are
-- read only if it is printed.
pub data Log : Type 0 where
  disabled silent printed : Log

abbrev pub prints : Log → Bool
prints printed = true
prints _ = false

pub record TsPacket : Type 0 where
  pub pid : ℕ
  pub payload_unit_start_indicator : ℕ
  pub scram_afc_cc : ℕ
  pub scrambling : ℕ
  pub position : ℕ
  pub payload : Option ℕ
  pub afc_flags : ℕ
  pub pcr : ℕ

-- G_MAXUINT64.
abbrev pub no_pcr : ℕ
no_pcr = 2 ^ 64 - 1

-- Is the adaptation field longer than a packet of its kind holds?
abbrev pub too_long : ℕ → ℕ → Bool
too_long afc_cc length = if afc_cc / 16 % 4 == 2 then ltb 183 length else ltb 182 length

-- What the four bytes of the header say.
abbrev pub header_packet : ℕ → ℕ → ℕ → TsPacket
header_packet tmp word afc_cc = record {
  pid = word % 2 ^ 13;
  payload_unit_start_indicator = tmp / 2 ^ 6 % 2 * 2 ^ 6;
  scram_afc_cc = afc_cc;
  scrambling = if afc_cc / 2 ^ 6 == 0 then 0 else 1;
  position = 4;
  payload = none;
  afc_flags = 0;
  pcr = no_pcr;
}

abbrev pub with_payload : ℕ → TsPacket → TsPacket
with_payload tmp packet =
    if bit 4 tmp
    then record packet { payload = some packet.position }
    else record packet { payload = none }

module _ (memory : List ℕ) where
  unfoldable pub compute_pcr : ℕ → Parse ℕ
  compute_pcr k = do
    pcr1 ← read_uint32 memory k
    pcr2 ← read_uint16 memory (k + 4)
    parsed ((pcr1 * 2 + pcr2 / 2 ^ 15 % 2) * 300 + pcr2 % 2 ^ 9 % 300)

  -- GST_MEMDUMP of `n` bytes.
  unfoldable pub dump : Log → ℕ → ℕ → Parse (Unit {0})
  dump log k n = if prints log && ltb 0 n && ltb (length memory) (k + n) then fault else parsed tt

  -- What is read for the log of the extension, from the position of its length on.
  unfoldable pub log_extension : Log → ℕ → ℕ → Parse (Unit {0})
  log_extension log afcflags k =
      if bit 0 afcflags
      then (do
        extlen ← byte memory k
        flags ← byte memory (k + 1)
        if prints log && bit 7 flags
            then (do ltw ← read_uint16 memory (k + 2); parsed tt)
            else parsed tt)
      else parsed tt

  unfoldable pub log_private_data : Log → ℕ → ℕ → Parse (Unit {0})
  log_private_data log afcflags k =
      if bit 1 afcflags
      then (do
        len ← byte memory k
        dumped ← dump log (k + 1) len
        log_extension log afcflags (k + 1 + len))
      else log_extension log afcflags k

  -- `*data++` stands within the message, so it is done only if that is printed.
  unfoldable pub log_splicing_point : Log → ℕ → ℕ → Parse (Unit {0})
  log_splicing_point log afcflags k =
      if bit 2 afcflags
      then (if prints log
          then (do countdown ← byte memory k; log_private_data log afcflags (k + 1))
          else log_private_data log afcflags k)
      else log_private_data log afcflags k

  unfoldable pub log_fields : Log → ℕ → ℕ → Parse (Unit {0})
  log_fields disabled afcflags k = parsed tt
  log_fields log afcflags k =
      if bit 3 afcflags
      then (do opcr ← compute_pcr k; log_splicing_point log afcflags (k + 6))
      else log_splicing_point log afcflags k

  -- The flags and the fields of an adaptation field of `length` bytes.
  unfoldable pub adaptation_field : Log → ℕ → TsPacket → Parse TsPacket
  adaptation_field log length packet = do
    afcflags ← byte memory packet.position
    let after = record packet { position = packet.position + length; afc_flags = afcflags }
    if bit 4 afcflags
        then (do
          pcr ← compute_pcr (packet.position + 1)
          logged ← log_fields log afcflags (packet.position + 7)
          parsed (record after { pcr = pcr }))
        else (do logged ← log_fields log afcflags (packet.position + 1); parsed after)

  -- The "Unknown payload" behind an adaptation field that ends at `k`, in a packet without a payload:
  -- the number of its bytes is a guint, which wraps around if the field ends behind the packet.
  unfoldable pub dump_unknown_payload : Log → ℕ → ℕ → ℕ → ℕ → Parse (Unit {0})
  dump_unknown_payload log size afc_cc length k =
      if afc_cc / 16 % 4 == 2
      then (if length == 183 then parsed tt else dump log k ((size + 2 ^ 32 - k) % 2 ^ 32))
      else parsed tt

  unfoldable pub parse_adaptation_field_control : Log → ℕ → TsPacket → Parse TsPacket
  parse_adaptation_field_control log size packet = do
    length ← byte memory packet.position
    let field = record packet { position = packet.position + 1 }
    if length == 0
        then parsed (record field { afc_flags = 0 })
        else if too_long packet.scram_afc_cc length
        then bad
        else (do
          dumped ←
              dump_unknown_payload log size packet.scram_afc_cc length (field.position + length)
          if ltb size (field.position + length) then bad else adaptation_field log length field)

  unfoldable pub parse_packet : Log → ℕ → Parse TsPacket
  parse_packet log size = do
    tmp ← byte memory 1
    if bit 7 tmp then bad else (do
      word ← read_uint16 memory 1
      afc_cc ← byte memory 3
      let packet = header_packet tmp word afc_cc
      if bit 5 afc_cc
          then (do
            after ← parse_adaptation_field_control log size packet
            parsed (with_payload afc_cc after))
          else parsed (with_payload afc_cc packet))
