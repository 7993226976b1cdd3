-- ===== src/Ts/Packet/Bounds.antt =====
-- gst/gst-demux/mpegtspacketizer.c: the reads of parse_packet, and where the payload starts.
pub mod Reads
pub mod Whole
use helia.Common.{
  ℕ, ◌+◌, ◌-◌, ◌*◌, ◌/◌, ◌%◌, ◌^◌, ◌≤◌, ◌<◌, ◌≡◌, ◌≢◌, refl, Option, none, some, Bool, true, false,
  List, ltb, ◌==◌, if◌then◌else◌, ◌&&◌, length, All, IsByte, arith,
}
use helia.Parsing.{Parse, parsed, bad, fault, ◌>>=◌, bit, byte, read_uint16, read_uint32}
use helia.Parsing.Meets.{
  Meets, Meets-parsed, Meets-bad, Meets-bind, Meets-if, Meets-byte, Meets-uint16, Meets-uint32,
}
use helia.Ts.Packet.{
  Log, disabled, silent, printed, prints, compute_pcr, dump, log_extension, log_private_data,
  log_splicing_point, log_fields,
}

-- How many bytes may be read for one packet: the private data that is skipped for the log may be
-- 255 bytes long.
abbrev pub reach : Log → ℕ
reach disabled = 12
reach _ = 279

unfoldable pub Any : Unit {0} → Type 0
Any u = Unit {0}

module _ (memory : List ℕ) (bytes : All IsByte memory) where
  pub compute_pcr-Meets :
      (k : ℕ) → k + 5 < length memory → Meets (λ (t : ℕ). t < 2 ^ 33 * 300) (compute_pcr memory k)
  unfolding compute_pcr
  compute_pcr-Meets k h = Meets-bind _ _ (Meets-uint32 memory bytes k (omega arith)) λ a p.
      Meets-bind _ _ (Meets-uint16 memory bytes (k + 4) (omega arith))
        λ b q. Meets-parsed _ (omega arith)

  -- A dump stays within the memory if its bytes do.
  pub dump-Meets : (log : Log) (k n : ℕ) → k + n ≤ length memory → Meets Any (dump memory log k n)
  unfolding dump Any
  dump-Meets log k n h =
      Meets-if (prints log && ltb 0 n && ltb (length memory) (k + n)) _ _
        (λ e. absurd (ground (arith, e, h))) λ e. Meets-parsed tt tt

  log_extension-Meets :
      (log : Log) (flags k : ℕ)
      → k + 3 < length memory
      → Meets Any (log_extension memory log flags k)
  unfolding log_extension Any
  log_extension-Meets log flags k h =
      Meets-if (bit 0 flags) _ _
        (λ e. Meets-bind _ _ (Meets-byte memory k bytes (omega arith)) λ a p.
          Meets-bind _ _ (Meets-byte memory (k + 1) bytes (omega arith)) λ b q.
            Meets-if (prints log && bit 7 b) _ _
              (λ d.
                Meets-bind _ _ (Meets-uint16 memory bytes (k + 2) (omega arith))
                  λ w r. Meets-parsed tt tt)
              λ d. Meets-parsed tt tt)
        λ e. Meets-parsed tt tt

  log_private_data-Meets :
      (log : Log) (flags k : ℕ)
      → k + 259 < length memory
      → Meets Any (log_private_data memory log flags k)
  unfolding log_private_data
  log_private_data-Meets log flags k h =
      Meets-if (bit 1 flags) _ _
        (λ e. Meets-bind _ _ (Meets-byte memory k bytes (omega arith)) λ a p.
          Meets-bind _ _ (dump-Meets log (k + 1) a (omega arith))
            λ d q. log_extension-Meets log flags (k + 1 + a) (omega arith))
        λ e. log_extension-Meets log flags k (omega arith)

  log_splicing_point-Meets :
      (log : Log) (flags k : ℕ)
      → k + 260 < length memory
      → Meets Any (log_splicing_point memory log flags k)
  unfolding log_splicing_point
  log_splicing_point-Meets log flags k h =
      Meets-if (bit 2 flags) _ _
        (λ e.
          Meets-if (prints log) _ _
            (λ d.
              Meets-bind _ _ (Meets-byte memory k bytes (omega arith))
                λ a p. log_private_data-Meets log flags (k + 1) (omega arith))
            λ d. log_private_data-Meets log flags k (omega arith))
        λ e. log_private_data-Meets log flags k (omega arith)

  logged :
      (log : Log) (flags k : ℕ)
      → k + 266 < length memory
      → Meets Any (
          if bit 3 flags
          then (do opcr ← compute_pcr memory k; log_splicing_point memory log flags (k + 6))
          else log_splicing_point memory log flags k)
  logged log flags k h =
      Meets-if (bit 3 flags) _ _
        (λ e.
          Meets-bind _ _ (compute_pcr-Meets k (omega arith))
            λ t p. log_splicing_point-Meets log flags (k + 6) (omega arith))
        λ e. log_splicing_point-Meets log flags k (omega arith)

  pub log_fields-Meets :
      (log : Log) (flags k : ℕ)
      → k ≤ 12
      → reach log ≤ length memory
      → Meets Any (log_fields memory log flags k)
  unfolding log_fields Any
  log_fields-Meets disabled flags k h r = Meets-parsed tt tt
  log_fields-Meets silent flags k h r = logged silent flags k (omega arith)
  log_fields-Meets printed flags k h r = logged printed flags k (omega arith)
