-- ===== src/Ts/Section/Seen.antt =====
-- gst/gst-demux/mpegtspacketizer.c: sections that were seen before.
use helia.Common.{
  ℕ, ◌≡◌, refl, ap, ◌∙◌, inl, inr, true, false, ◌&&◌, Option, none, some, List, [], ◌∷◌, ◌==◌,
  eq→==, arith, Bool-cases, Option-cases,
}
use helia.Ts.Section.{
  Subtable, Stream, Header, is_subtable, find_subtable, change_subtable, seen_in,
  seen_section_before, subtable_new, clear_section, section_bytes, prepare_subtable, mark_seen,
  parse_section_header,
}

-- The header of the section that is pending.
abbrev pub pending_header : Stream → Header
pending_header stream = record {
  table_id = stream.table_id;
  section_length = stream.section_length;
  subtable_extension = stream.subtable_extension;
  version_number = stream.version_number;
  section_number = stream.section_number;
  last_section_number = stream.last_section_number;
}

-- A change that leaves the keys is found where the subtable was.
find_subtable-change_subtable :
    (table_id extension : ℕ) (change : Subtable → Subtable) (subtables : List Subtable)
    (sub : Subtable)
    → ((s : Subtable)
        → is_subtable table_id extension (change s) ≡ is_subtable table_id extension s)
    → find_subtable subtables table_id extension ≡ some sub
    → find_subtable (change_subtable table_id extension change subtables) table_id extension
      ≡ some (change sub)
unfolding find_subtable change_subtable
find_subtable-change_subtable table_id extension change [] sub keeps e = ground (arith, e)
find_subtable-change_subtable table_id extension change (s ∷ subtables) sub keeps e =
    elim (Bool-cases (is_subtable table_id extension s)) [
      | inl here ↦ ground (arith, here, keeps s, e)
      | inr there ↦ ground (
        arith,
        there,
        e,
        find_subtable-change_subtable table_id extension change subtables sub keeps,
      )
    ]

-- A subtable that `find_subtable` points to has the version, the last number and the section's bit.
record Remembers (subtables : List Subtable) (h : Header) : Type 0 where
  sub : Subtable
  there : find_subtable subtables h.table_id h.subtable_extension ≡ some sub
  version : sub.version_number ≡ h.version_number
  last : sub.last_section_number ≡ h.last_section_number

prepare_subtable-Remembers :
    (stream : Stream)
    → ((sub : Subtable)
        → find_subtable stream.subtables stream.table_id stream.subtable_extension ≡ some sub
        → sub.version_number ≡ stream.version_number
        → sub.last_section_number ≡ stream.last_section_number)
    → Remembers (prepare_subtable stream) (pending_header stream)
unfolding prepare_subtable find_subtable subtable_new
prepare_subtable-Remembers stream known =
    elim (Option-cases (find_subtable stream.subtables stream.table_id stream.subtable_extension)) [
      | inl e ↦
          let key : (stream.table_id == stream.table_id
                && stream.subtable_extension == stream.subtable_extension)
              ≡ true =
            ground arith in
          rw (e, prepare_subtable)
            (record {
              sub =
                  record (subtable_new stream.table_id stream.subtable_extension
                    stream.last_section_number) { version_number = stream.version_number };
              there = rw key refl;
              version = refl;
              last = refl;
            })
      | inr (sub, e) ↦ elim (Bool-cases (stream.version_number == sub.version_number)) [
        | inl same ↦
            let version : sub.version_number ≡ stream.version_number = ground (arith, same) in
            rw (e, prepare_subtable, same)
              (record { sub = sub; there = e; version = version; last = known sub e version })
        | inr other ↦
            let change : Subtable → Subtable = λ old. record old {
              version_number = stream.version_number;
              last_section_number = stream.last_section_number;
              seen_section = λ n. false;
            } in
            rw (e, prepare_subtable, other)
              (record {
                sub = change sub;
                there =
                    find_subtable-change_subtable stream.table_id stream.subtable_extension change
                      stream.subtables sub (λ s. refl) e;
                version = refl;
                last = refl;
              })
      ]
    ]

module _ {Section : Type 0} (section_new : ℕ → List ℕ → Option Section) where
  -- A section that libgstmpegts accepted counts as seen afterwards, and so is not delivered again from the same
  -- header, unless its subtable was there before with its version and another last section number.
  pub parse_section_header-seen :
      (stream : Stream) (result : Section × ℕ)
      → ((sub : Subtable)
          → find_subtable stream.subtables stream.table_id stream.subtable_extension ≡ some sub
          → sub.version_number ≡ stream.version_number
          → sub.last_section_number ≡ stream.last_section_number)
      → (parse_section_header section_new stream).1 ≡ some result
      → seen_section_before ((parse_section_header section_new stream).0) (pending_header stream)
        ≡ true
  unfolding parse_section_header seen_section_before clear_section
  parse_section_header-seen stream result known e =
      let r = prepare_subtable-Remembers stream known in
      elim (Option-cases (section_new stream.pid (section_bytes stream))) [
        | inl refused ↦
            let rejected : (parse_section_header section_new stream).1 ≡ none =
              rw (refused, parse_section_header) refl in
            absurd (ground (arith, e, rejected))
        | inr (section, accepted) ↦
            let bit =
              find_subtable-change_subtable stream.table_id stream.subtable_extension
                (mark_seen stream.section_number) (prepare_subtable stream) r.sub (λ s. refl)
                r.there in
            let version : (r.sub.version_number == stream.version_number) ≡ true =
              eq→== r.sub.version_number stream.version_number r.version in
            let last : (r.sub.last_section_number == stream.last_section_number) ≡ true =
              eq→== r.sub.last_section_number stream.last_section_number r.last in
            let number : (stream.section_number == stream.section_number) ≡ true = ground arith in
            rw (accepted, parse_section_header)
              (ap (seen_in (pending_header stream)) bit ∙ rw (version, last, number) refl)
      ]
