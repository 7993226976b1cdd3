-- ===== src/Pes/Bounds/Whole.antt =====
-- gst/gst-demux/pesparse.c: the bounds of mpegts_parse_pes_header.
use helia.Parsing.{bit, fault, parsed}
use helia.Common.{
  ℕ, ◌+◌, ◌-◌, ◌/◌, ◌%◌, ◌^◌, ◌≤◌, ◌<◌, ◌≡◌, ◌≢◌, refl, inl, inr, not, List, ltb, ◌==◌, length, All,
  IsByte, arith,
}
use helia.Pes.Header.{PesHeader}
use helia.Pes.Parse.{PesState}
use helia.Pes.Extension.{optional_fields, is_plain, parse_flags, parse_pes_header}
use helia.Parsing.Meets.{
  Meets, Meets-parsed, Meets-bad, Meets-need_more, Meets-bind, Meets-if, Meets-byte, Meets-uint16,
  Meets-uint32,
}
use helia.Pes.Bounds.{
  Stamp, Sound, Stage, timestamp-Sound, es_rate-Sound, trick_mode-Sound, copy_info-Sound, crc-Sound,
}
use helia.Pes.Bounds.Extension.{extension-Sound}

-- What a header holds that was parsed from `n` bytes.
pub record Within (n : ℕ) (h : PesHeader) : Type 0 where
  pub start : 6 ≤ h.header_size
  pub end : h.header_size ≤ n
  pub short : h.header_size ≤ 264
  pub pts : Stamp h.pts
  pub dts : Stamp h.dts
  pub escr : Stamp h.escr

module _ (memory : List ℕ) (bytes : All IsByte memory) where
  optional_fields-Sound :
      {size : ℕ} (flags : ℕ) (s : PesState)
      → Sound (length memory) size s
      → Stage memory bytes size (optional_fields memory flags s)
  unfolding optional_fields
  optional_fields-Sound flags s v =
      Meets-bind _ _
        (timestamp-Sound memory bytes (bit 7 flags) (λ t h. record h { pts = t }) s
          (λ t b. record {
            header_size = v.kept.header_size;
            pts = inr b;
            dts = v.kept.dts;
            escr = v.kept.escr;
          })
          v)
        λ s₁ v₁.
          Meets-bind _ _
            (timestamp-Sound memory bytes (bit 6 flags) (λ t h. record h { dts = t }) s₁
              (λ t b. record {
                header_size = v₁.kept.header_size;
                pts = v₁.kept.pts;
                dts = inr b;
                escr = v₁.kept.escr;
              })
              v₁)
            λ s₂ v₂.
              Meets-bind _ _
                (timestamp-Sound memory bytes (bit 5 flags) (λ t h. record h { escr = t }) s₂
                  (λ t b. record {
                    header_size = v₂.kept.header_size;
                    pts = v₂.kept.pts;
                    dts = v₂.kept.dts;
                    escr = inr b;
                  })
                  v₂)
                λ s₃ v₃. Meets-bind _ _ (es_rate-Sound memory bytes flags s₃ v₃) λ s₄ v₄.
                  Meets-bind _ _ (trick_mode-Sound memory bytes flags s₄ v₄) λ s₅ v₅.
                    Meets-bind _ _ (copy_info-Sound memory bytes flags s₅ v₅) λ s₆ v₆.
                      Meets-bind _ _ (crc-Sound memory bytes flags s₆ v₆)
                        λ s₇ v₇. extension-Sound memory bytes flags s₇ v₇

  parse_flags-Within :
      (h : PesHeader) (n : ℕ)
      → 6 ≤ n
      → n < length memory
      → Stamp h.pts
      → Stamp h.dts
      → Stamp h.escr
      → Meets (Within n) (parse_flags memory h (n - 6))
  unfolding parse_flags
  parse_flags-Within h n six room p d e =
      Meets-if (ltb (n - 6) 3) _ _ (λ c. Meets-need_more)
        λ c. Meets-bind _ _ (Meets-byte memory 6 bytes (ground (arith, c))) λ a k.
          Meets-if (not (a / 2 ^ 6 == 2)) _ _ (λ b. Meets-bad)
            λ b. Meets-bind _ _ (Meets-byte memory 7 bytes (ground (arith, c))) λ flags f.
              Meets-bind _ _ (Meets-byte memory 8 bytes (ground (arith, c))) λ size m.
                Meets-if (ltb (n - 6 - 3) size) _ _ (λ x. Meets-need_more)
                  λ x.
                    Meets-bind _ _
                      (optional_fields-Sound {size = size + 9} flags _ (record {
                        inside = ground (arith, c);
                        kept = record { header_size = refl; pts = p; dts = d; escr = e };
                      }))
                      λ s v. Meets-parsed s.header (record {
                        start = omega (arith, v.kept.header_size);
                        end = ground (arith, c, x, v.kept.header_size);
                        short = omega (arith, v.kept.header_size);
                        pts = v.kept.pts;
                        dts = v.kept.dts;
                        escr = v.kept.escr;
                      })

  parse_pes_header-Within :
      (n : ℕ) → n < length memory → Meets (Within n) (parse_pes_header memory n)
  unfolding parse_pes_header
  parse_pes_header-Within n room =
      Meets-if (ltb n 6) _ _ (λ c. Meets-need_more)
        λ c. Meets-bind _ _ (Meets-uint32 memory bytes 0 (ground (arith, c))) λ w k.
          Meets-if (not (w / 2 ^ 8 == 1)) _ _ (λ b. Meets-bad)
            λ b. Meets-bind _ _ (Meets-uint16 memory bytes 4 (ground (arith, c))) λ u l.
              Meets-if (is_plain (w % 2 ^ 8)) _ _
                (λ q. Meets-parsed _ (record {
                  start = omega arith;
                  end = ground (arith, c);
                  short = omega arith;
                  pts = inl refl;
                  dts = inl refl;
                  escr = inl refl;
                }))
                λ q.
                  parse_flags-Within _ n (ground (arith, c)) room (inl refl) (inl refl) (inl refl)

-- With one readable byte behind the packet, the parser reads nothing outside the memory.
pub parse_pes_header_safe :
    (memory : List ℕ) (n : ℕ)
    → All IsByte memory
    → n < length memory
    → parse_pes_header memory n ≢ fault
parse_pes_header_safe memory n bytes room = (parse_pes_header-Within memory bytes n room).no_fault

-- With one readable byte behind the packet, a header that is parsed from `n` bytes is from 6 to 264
-- bytes long and not longer than `n`, and each of its timestamps is missing or has 33 bits.
pub parse_pes_header_bounds :
    (memory : List ℕ) (n : ℕ) (h : PesHeader)
    → All IsByte memory
    → n < length memory
    → parse_pes_header memory n ≡ parsed h
    → Within n h
parse_pes_header_bounds memory n h bytes room e =
    (parse_pes_header-Within memory bytes n room).result h e
