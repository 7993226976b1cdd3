-- ===== src/Pes/Bounds/Extension.antt =====
-- gst/gst-demux/pesparse.c: the bounds of the PES extension and of the parser as a whole.
use helia.Parsing.{bit}
use helia.Common.{
  ℕ, ◌+◌, ◌-◌, ◌/◌, ◌%◌, ◌^◌, refl, not, List, ltb, ◌==◌, length, All, IsByte, arith,
}
use helia.Pes.Header.{PesHeader}
use helia.Pes.Parse.{PesState}
use helia.Pes.Extension.{
  private_data_stage, pack_header_stage, sequence_stage, p_std_stage, extension_field,
  extension_2_stage, extension_stage,
}
use helia.Parsing.Meets.{
  Meets-parsed, Meets-bad, Meets-need_more, Meets-bind, Meets-if, Meets-byte, Meets-uint16,
}
use helia.Pes.Bounds.{Kept, Sound, Stage, with-Kept, skip-Sound, field-Sound}

extension_field-Kept :
    {n : ℕ} (flags position size : ℕ) (h : PesHeader)
    → Kept n h
    → Kept n (extension_field flags position size h)
extension_field-Kept flags position size h v =
    with-Kept h (extension_field flags position size h) (ground arith) (ground arith) (ground arith)
      (ground arith) v

module _ (memory : List ℕ) (bytes : All IsByte memory) where
  private_data-Sound :
      {size : ℕ} (flags : ℕ) (s : PesState)
      → Sound (length memory) size s
      → Stage memory bytes size (private_data_stage memory flags s)
  unfolding private_data_stage
  private_data-Sound flags s v =
      field-Sound (bit 7 flags) 16 s _ v λ h.
        Meets-parsed _ (skip-Sound 16 _ s h (with-Kept s.header _ refl refl refl refl v.kept) v)

  pack_header-Sound :
      {size : ℕ} (flags : ℕ) (s : PesState)
      → Sound (length memory) size s
      → Stage memory bytes size (pack_header_stage memory flags s)
  unfolding pack_header_stage
  pack_header-Sound flags s v = field-Sound (bit 6 flags) 1 s _ v λ h.
      Meets-bind _ _ (Meets-byte memory s.position bytes (omega (arith, v.inside))) λ b c.
        Meets-if (ltb (s.length - 1) b) _ _ (λ e. Meets-need_more)
          λ e. Meets-parsed _ (
            skip-Sound (1 + b) _ s (ground (arith, e, h))
              (with-Kept s.header _ refl refl refl refl v.kept) v)

  sequence-Sound :
      {size : ℕ} (flags : ℕ) (s : PesState)
      → Sound (length memory) size s
      → Stage memory bytes size (sequence_stage memory flags s)
  unfolding sequence_stage
  sequence-Sound flags s v = field-Sound (bit 5 flags) 2 s _ v λ h.
      Meets-bind _ _ (Meets-byte memory s.position bytes (omega (arith, v.inside))) λ a p.
        Meets-if (not (bit 7 a)) _ _ (λ e. Meets-bad)
          λ e.
            Meets-bind _ _ (Meets-byte memory (s.position + 1) bytes (omega (arith, v.inside)))
              λ b q.
                Meets-if (not (bit 7 b)) _ _ (λ e. Meets-bad)
                  λ e.
                    Meets-parsed _
                      (skip-Sound 2 _ s h (with-Kept s.header _ refl refl refl refl v.kept) v)

  p_std-Sound :
      {size : ℕ} (flags : ℕ) (s : PesState)
      → Sound (length memory) size s
      → Stage memory bytes size (p_std_stage memory flags s)
  unfolding p_std_stage
  p_std-Sound flags s v = field-Sound (bit 4 flags) 2 s _ v λ h.
      Meets-bind _ _ (Meets-byte memory s.position bytes (omega (arith, v.inside))) λ b c.
        Meets-if (not (b / 2 ^ 6 == 1)) _ _ (λ e. Meets-bad)
          λ e.
            Meets-bind _ _ (Meets-uint16 memory bytes s.position (omega (arith, v.inside))) λ w d.
              Meets-parsed _
                (skip-Sound 2 _ s h (with-Kept s.header _ refl refl refl refl v.kept) v)

  extension_2-Sound :
      {size : ℕ} (s : PesState)
      → Sound (length memory) size s
      → Stage memory bytes size (extension_2_stage memory s)
  unfolding extension_2_stage
  extension_2-Sound s v =
      Meets-if (ltb s.length 1) _ _ (λ e. Meets-need_more)
        λ e. Meets-bind _ _ (Meets-byte memory s.position bytes (omega (arith, v.inside))) λ b c.
          Meets-if (not (bit 7 b)) _ _ (λ d. Meets-bad)
            λ d.
              Meets-if (b % 2 ^ 7 == 0) _ _
                (λ z. Meets-parsed _ (
                  skip-Sound 1 _ s (ground (arith, e))
                    (with-Kept s.header _ refl refl refl refl v.kept) v))
                λ z.
                  Meets-if (ltb (s.length - 1) (b % 2 ^ 7)) _ _ (λ m. Meets-need_more)
                    λ m.
                      Meets-bind _ _
                        (Meets-byte memory (s.position + 1) bytes
                          (ground (arith, e, z, m, v.inside)))
                        λ f g. Meets-parsed _ (
                          skip-Sound 2 _ s (ground (arith, e, z, m))
                            (extension_field-Kept f (s.position + 2) (b % 2 ^ 7) s.header v.kept) v)

  pub extension-Sound :
      {size : ℕ} (flags : ℕ) (s : PesState)
      → Sound (length memory) size s
      → Stage memory bytes size (extension_stage memory flags s)
  unfolding extension_stage
  extension-Sound flags s v = field-Sound (bit 0 flags) 1 s _ v λ h.
      Meets-bind _ _ (Meets-byte memory s.position bytes (omega (arith, v.inside))) λ f g.
        Meets-bind _ _ (private_data-Sound f _ (skip-Sound 1 s.header s h v.kept v)) λ s₁ v₁.
          Meets-bind _ _ (pack_header-Sound f s₁ v₁) λ s₂ v₂.
            Meets-bind _ _ (sequence-Sound f s₂ v₂) λ s₃ v₃.
              Meets-bind _ _ (p_std-Sound f s₃ v₃) λ s₄ v₄.
                Meets-if (not (bit 0 f)) _ _ (λ e. Meets-parsed s₄ v₄) λ e. extension_2-Sound s₄ v₄
