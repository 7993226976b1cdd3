-- ===== src/Pes/Bounds.antt =====
-- gst/gst-demux/pesparse.c: the reads of the parser stay in the memory, with one byte behind the
-- packet, and the header that is parsed is within its bounds.
pub mod Extension
pub mod Whole
use helia.Parsing.{Parse, bit, byte, fault, need_more, parsed, read_uint32, ◌>>=◌}
use helia.Common.{
  ℕ, ◌+◌, ◌-◌, ◌*◌, ◌/◌, ◌%◌, ◌^◌, ◌≤◌, ◌<◌, ◌≡◌, ◌≢◌, refl, ◌⊎◌, inl, inr, Bool, true, false, not,
  ◌&&◌, ◌||◌, List, ltb, leb, ◌==◌, if◌then◌else◌, length, All, IsByte, arith, subst, sym, ◌∙◌,
}
use helia.Pes.Header.{PesHeader, no_timestamp, header_clear}
use helia.Pes.Parse.{
  PesState, skip, read_ts, timestamp_stage, es_rate_stage, trick_fields, trick_mode_stage,
  copy_info_stage, crc_stage,
}
use helia.Parsing.Meets.{
  Meets, Meets-parsed, Meets-bad, Meets-need_more, Meets-bind, Meets-if, Meets-byte, Meets-uint16,
  Meets-uint32,
}

-- A timestamp of 33 bits, or none.
abbrev pub Stamp : ℕ → Type 0
Stamp t = (t ≡ no_timestamp) ⊎ (t < 2 ^ 33)

pub record Kept (size : ℕ) (h : PesHeader) : Type 0 where
  pub header_size : h.header_size ≡ size
  pub pts : Stamp h.pts
  pub dts : Stamp h.dts
  pub escr : Stamp h.escr

pub record Sound (n size : ℕ) (s : PesState) : Type 0 where
  pub inside : s.position + s.length < n
  pub kept : Kept size s.header

pub skip-Sound :
    {n size : ℕ} (k : ℕ) (h : PesHeader) (s : PesState)
    → k ≤ s.length
    → Kept size h
    → Sound n size s
    → Sound n size (skip k h s)
skip-Sound k h s l kept v = record { inside = omega (arith, v.inside); kept = kept }

-- The other fields of a header are free.
pub with-Kept :
    {size : ℕ} (h : PesHeader) (k : PesHeader)
    → k.header_size ≡ h.header_size
    → k.pts ≡ h.pts
    → k.dts ≡ h.dts
    → k.escr ≡ h.escr
    → Kept size h
    → Kept size k
with-Kept h k a b c d v = record {
  header_size = a ∙ v.header_size;
  pts = subst Stamp (sym b) v.pts;
  dts = subst Stamp (sym c) v.dts;
  escr = subst Stamp (sym d) v.escr;
}

-- A field of `k` bytes: it is left out, or there are too few bytes, or it is read.
pub field-Sound :
    {n size : ℕ} (present : Bool) (k : ℕ) (s : PesState) (m : Parse PesState)
    → Sound n size s
    → (k ≤ s.length → Meets (Sound n size) m)
    → Meets
        (Sound n size)
        (if not present then parsed s else if ltb s.length k then need_more else m)
field-Sound present k s m v h =
    Meets-if (not present) _ _ (λ e. Meets-parsed s v)
      λ e. Meets-if (ltb s.length k) _ _ (λ c. Meets-need_more) λ c. h (ground (arith, c))

trick_fields-Kept :
    {size : ℕ} (val8 : ℕ) (h : PesHeader) → Kept size h → Kept size (trick_fields val8 h)
trick_fields-Kept val8 h v =
    with-Kept h (trick_fields val8 h) (ground arith) (ground arith) (ground arith) (ground arith) v

module _ (memory : List ℕ) (bytes : All IsByte memory) where
  abbrev pub Stage : ℕ → Parse PesState → Type 0
  Stage size m = Meets (Sound (length memory) size) m

  -- A timestamp has 33 bits.
  Meets-ts : (k : ℕ) → k + 4 < length memory → Meets (λ (t : ℕ). t < 2 ^ 33) (read_ts memory k)
  unfolding read_ts
  Meets-ts k h = Meets-bind _ _ (Meets-byte memory k bytes (omega arith)) λ a p.
      Meets-if (not (bit 0 a)) _ _ (λ e. Meets-bad)
        λ e. Meets-bind _ _ (Meets-byte memory (k + 1) bytes (omega arith)) λ b q.
          Meets-bind _ _ (Meets-byte memory (k + 2) bytes (omega arith)) λ c r.
            Meets-if (not (bit 0 c)) _ _ (λ e. Meets-bad)
              λ e. Meets-bind _ _ (Meets-byte memory (k + 3) bytes (omega arith)) λ d s.
                Meets-bind _ _ (Meets-byte memory (k + 4) bytes h) λ x t.
                  Meets-if (not (bit 0 x)) _ _ (λ e. Meets-bad) λ e. Meets-parsed _ (omega arith)

  pub timestamp-Sound :
      {size : ℕ} (present : Bool) (store : ℕ → PesHeader → PesHeader) (s : PesState)
      → ((t : ℕ) → t < 2 ^ 33 → Kept size (store t s.header))
      → Sound (length memory) size s
      → Stage size (timestamp_stage memory present store s)
  unfolding timestamp_stage
  timestamp-Sound present store s k v = field-Sound present 5 s _ v λ h.
      Meets-bind _ _ (Meets-ts s.position (omega (arith, v.inside)))
        λ t b. Meets-parsed _ (skip-Sound 5 _ s h (k t b) v)

  pub es_rate-Sound :
      {size : ℕ} (flags : ℕ) (s : PesState)
      → Sound (length memory) size s
      → Stage size (es_rate_stage memory flags s)
  unfolding es_rate_stage
  es_rate-Sound flags s v = field-Sound (bit 4 flags) 3 s _ v λ h.
      Meets-bind _ _ (Meets-uint32 memory bytes s.position (omega (arith, v.inside))) λ w b.
        Meets-if (not (bit 31 w && bit 8 w)) _ _ (λ e. Meets-bad)
          λ e.
            Meets-parsed _ (skip-Sound 3 _ s h (with-Kept s.header _ refl refl refl refl v.kept) v)

  pub trick_mode-Sound :
      {size : ℕ} (flags : ℕ) (s : PesState)
      → Sound (length memory) size s
      → Stage size (trick_mode_stage memory flags s)
  unfolding trick_mode_stage
  trick_mode-Sound flags s v = field-Sound (bit 3 flags) 1 s _ v λ h.
      Meets-bind _ _ (Meets-byte memory s.position bytes (omega (arith, v.inside)))
        λ b c. Meets-parsed _ (skip-Sound 1 _ s h (trick_fields-Kept b s.header v.kept) v)

  pub copy_info-Sound :
      {size : ℕ} (flags : ℕ) (s : PesState)
      → Sound (length memory) size s
      → Stage size (copy_info_stage memory flags s)
  unfolding copy_info_stage
  copy_info-Sound flags s v = field-Sound (bit 2 flags) 1 s _ v λ h.
      Meets-bind _ _ (Meets-byte memory s.position bytes (omega (arith, v.inside))) λ b c.
        Meets-if (not (bit 7 b)) _ _ (λ e. Meets-bad)
          λ e.
            Meets-parsed _ (skip-Sound 1 _ s h (with-Kept s.header _ refl refl refl refl v.kept) v)

  pub crc-Sound :
      {size : ℕ} (flags : ℕ) (s : PesState)
      → Sound (length memory) size s
      → Stage size (crc_stage memory flags s)
  unfolding crc_stage
  crc-Sound flags s v = field-Sound (bit 1 flags) 2 s _ v λ h.
      Meets-bind _ _ (Meets-uint16 memory bytes s.position (omega (arith, v.inside))) λ w b.
        Meets-parsed _ (skip-Sound 2 _ s h (with-Kept s.header _ refl refl refl refl v.kept) v)
