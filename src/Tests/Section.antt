-- ===== src/Tests/Section.antt =====
-- Sections of a stream at concrete inputs; libgstmpegts accepts every section as its bytes.
use helia.Common.{
  ℕ, ◌+◌, ◌≡◌, refl, subst, inl, inr, true, Option, some, List, [], ◌∷◌, ◌++◌, arith, replicate,
  zeros,
}
use helia.Parsing.Gives.{Gives}
use helia.Ts.Section.{
  Subtable, Stream, stream_new, seen_section_before, find_subtable, parse_section_header,
}
use helia.Ts.Section.Push.{Payload, push_section}
use helia.Ts.Section.Invariant.{Idle, Pending, AllSteady, stream_new-Idle}
use helia.Ts.Section.Rounds.{push_section-Steady}
use helia.Ts.Section.Reassembly.{push_all, push_all-reassembles}
use helia.Ts.Section.Seen.{pending_header, parse_section_header-seen}

abbrev accept : ℕ → List ℕ → Option (List ℕ)
accept pid bytes = some bytes

-- Ten bytes of a section of 16 are there.
abbrev begun : Stream
begun = record (stream_new 17) {
  continuity_counter = 15;
  section_data = some (replicate 10 1 ++ zeros 6);
  section_offset = 10;
  section_length = 16;
  table_id = 0x42;
  offset = 500;
}

begun-Pending : Pending begun (replicate 10 1 ++ zeros 6)
begun-Pending = record { there = refl; size = refl; missing = omega arith; short = omega arith }

abbrev continued : ℕ → List ℕ → Payload
continued counter bytes = record {
  pid = 17;
  payload_unit_start_indicator = 0;
  scram_afc_cc = 16 + counter;
  offset = 900;
  bytes = bytes;
}

push_section-Steady_example :
    Gives
      (λ (r : (ℕ → Option Stream) × List (List ℕ × ℕ)). AllSteady (r.0))
      (push_section accept (continued 0 (2 ∷ 3 ∷ [])) 3 (λ pid. some (stream_new pid)))
push_section-Steady_example =
    push_section-Steady accept (continued 0 (2 ∷ 3 ∷ [])) (λ pid. some (stream_new pid))
      (omega arith) (λ pid stream e. inl (subst Idle (ground (arith, e)) (stream_new-Idle pid)))

push_all-reassembles_example :
    Gives
      (λ (r : Stream × List (List ℕ × ℕ)).
        Idle (r.0) × (r.1 ≡ (replicate 10 1 ++ replicate 6 2, 500) ∷ []))
      (push_all accept
        (continued 0 (replicate 4 2) ∷ continued 1 (replicate 2 2 ++ replicate 20 0xff) ∷ [])
        begun)
push_all-reassembles_example =
    push_all-reassembles accept (continued 0 (replicate 4 2) ∷ [])
      (continued 1 (replicate 2 2 ++ replicate 20 0xff)) begun (replicate 10 1 ++ zeros 6)
      (replicate 2 2) (replicate 20 0xff) (replicate 10 1 ++ replicate 6 2) begun-Pending
      (omega arith) (refl, refl, (refl, refl, tt)) refl (omega arith) (inr refl) refl refl

begun_first :
    (sub : Subtable)
    → find_subtable begun.subtables begun.table_id begun.subtable_extension ≡ some sub
    → sub.version_number ≡ begun.version_number
    → sub.last_section_number ≡ begun.last_section_number
unfolding find_subtable stream_new
begun_first sub e v = ground (arith, e)

begun_parsed : (parse_section_header accept begun).1 ≡ some (replicate 10 1 ++ zeros 6, 500)
unfolding parse_section_header
begun_parsed = refl

parse_section_header-seen_example :
    seen_section_before ((parse_section_header accept begun).0) (pending_header begun) ≡ true
parse_section_header-seen_example =
    parse_section_header-seen accept begun (replicate 10 1 ++ zeros 6, 500) begun_first begun_parsed
