-- ===== src/Ts/Section/Rounds.antt =====
-- gst/gst-demux/mpegtspacketizer.c: `mpegts_packetizer_push_section` round by round.
use helia.Common.{
  ℕ, zero, suc, ◌+◌, ◌-◌, ◌%◌, ◌≤◌, ◌<◌, ◌≡◌, refl, sym, subst, ◌∙◌, inl, inr, true, not, ◌&&◌,
  Option, some, List, [], ltb, ◌==◌, if◌then◌else◌, length, take, drop, zeros, length-zeros, arith,
  Bool-cases, Option-cases,
}
use helia.Parsing.{Parse, parsed, ◌>>=◌, bit, read_uint16}
use helia.Parsing.Gives.{Gives, Gives-parsed, Gives-bind, Gives-if}
use helia.Ts.Window.Search.{Gives-at}
use helia.Ts.Section.{
  Stream, Header, continuity_unset, seen_section_before, stream_new, clear_section, section_bytes,
  parse_section_header,
}
use helia.Ts.Section.Push.{
  Payload, Work, min, sub32, accumulate_data, next_section, begin_section, long_section,
  short_section, section_start, push_stream, push_section,
}
use helia.Ts.Section.Invariant.{
  Pending, Idle, Steady, AllSteady, clear_section-Idle, stream_new-Idle,
}
use helia.Ts.Section.Store.{store-Stored, length-take-drop}

module _ {Section : Type 0} (section_new : ℕ → List ℕ → Option Section) (packet : Payload) where
  -- The continuation takes positions after `k`, with no section pending.
  abbrev pub Continues : ℕ → (ℕ → Work Section → Parse (Work Section)) → Type 0
  Continues k again =
      (next : ℕ) (w : Work Section)
      → k < next
      → next ≤ length packet.bytes
      → Idle w.stream
      → Gives (λ (r : Work Section). Steady r.stream) (again next w)

  parse_section_header-Idle : (stream : Stream) → Idle ((parse_section_header section_new stream).0)
  unfolding parse_section_header clear_section
  parse_section_header-Idle stream =
      elim (Option-cases (section_new stream.pid (section_bytes stream))) [
        | inl e ↦ rw (e, parse_section_header) (record { counter = refl; nothing = refl })
        | inr (section, e) ↦
            rw (e, parse_section_header) (record { counter = refl; nothing = refl })
      ]

  accumulate_data-Steady :
      (again : ℕ → Work Section → Parse (Work Section)) (k : ℕ) (w : Work Section) (memory : List ℕ)
      → k ≤ length packet.bytes
      → Pending w.stream memory
      → Continues k again
      → Gives (λ (r : Work Section). Steady r.stream) (accumulate_data section_new packet again k w)
  unfolding accumulate_data
  accumulate_data-Steady again k w memory inside p next =
      let missing = w.stream.section_length - w.stream.section_offset in
      let to_read =
        min (sub32 w.stream.section_length w.stream.section_offset) (length packet.bytes - k) in
      let wraps : sub32 w.stream.section_length w.stream.section_offset ≡ missing =
        omega (arith, p.missing, p.short) in
      let least : (to_read ≤ missing) × (to_read ≤ length packet.bytes - k) =
        ground (arith, wraps) in
      let size : length (take to_read (drop k packet.bytes)) ≡ to_read =
        length-take-drop to_read k packet.bytes (least.1) in
      Gives-bind _ _
        (store-Stored (take to_read (drop k packet.bytes)) memory
          (record w.stream { continuity_counter = packet.scram_afc_cc % 16 }) p.there p.size p.short
          (omega (arith, size, least, p.missing)))
        λ stored s.
          Gives-if (ltb stored.section_offset stored.section_length) _ _
            (λ e. Gives-parsed _ (
              inr (
                omega (arith, s.counter),
                (
                  s.written,
                  record {
                    there = s.there;
                    size = s.size ∙ p.size ∙ sym s.section_length;
                    missing = ground (arith, e);
                    short = omega (arith, s.section_length, p.short);
                  },
                ),
              )))
            λ e.
              let complete : stored.section_length ≤ stored.section_offset = ground (arith, e) in
              next (k + to_read) _
                (omega (arith, complete, s.section_offset, s.section_length, size, p.missing))
                (omega (arith, least, inside)) (parse_section_header-Idle stored)

  next_section-Steady :
      (again : ℕ → Work Section → Parse (Work Section)) (k next : ℕ) (w : Work Section)
      → k < next
      → Idle w.stream
      → Continues k again
      → Gives (λ (r : Work Section). Steady r.stream) (next_section section_new packet again next w)
  unfolding next_section
  next_section-Steady again k next w later i continue =
      Gives-if (ltb next (length packet.bytes)) _ _
        (λ e. Gives-bind _ _ (Gives-at packet.bytes next (ground (arith, e))) λ b q.
          Gives-if (b == 0xff) _ _ (λ f. Gives-parsed _ (inl i))
            λ f. continue next w later (ground (arith, e)) i)
        λ e. Gives-parsed _ (inl i)

  begin_section-Steady :
      (again : ℕ → Work Section → Parse (Work Section)) (k next : ℕ) (h : Header) (w : Work Section)
      → k < length packet.bytes
      → 0 < h.section_length
      → h.section_length ≤ 4098
      → Idle w.stream
      → Continues k again
      → Gives
          (λ (r : Work Section). Steady r.stream)
          (begin_section section_new packet again k next h w)
  unfolding begin_section
  begin_section-Steady again k next h w inside positive short i continue =
      let to_read = min h.section_length (length packet.bytes - k) in
      let some_read : 0 < to_read = ground (arith, inside, positive) in
      Gives-if (seen_section_before w.stream h) _ _
        (λ e. next_section-Steady again k (k + to_read) w (omega arith) i continue)
        λ e.
          Gives-if (ltb h.last_section_number h.section_number) _ _ (λ f. Gives-parsed _ (inl i))
            λ f.
              accumulate_data-Steady again k _ (zeros h.section_length) (omega arith)
                (record {
                  there = refl;
                  size = length-zeros h.section_length;
                  missing = positive;
                  short = short;
                })
                continue

  long_section-Steady :
      (again : ℕ → Work Section → Parse (Work Section)) (k table_id section_length : ℕ)
      (w : Work Section)
      → 0 < section_length
      → section_length ≤ 4098
      → Idle w.stream
      → Continues k again
      → Gives
          (λ (r : Work Section). Steady r.stream)
          (long_section section_new packet again k table_id section_length w)
  unfolding long_section read_uint16
  long_section-Steady again k table_id section_length w positive short i continue =
      Gives-if (ltb (length packet.bytes) (k + 3 + 5)) _ _ (λ e. Gives-parsed _ (inl i))
        λ e.
          let inside : k + 3 + 5 ≤ length packet.bytes = ground (arith, e) in
          Gives-bind _ _
            (Gives-bind _ _ (Gives-at packet.bytes (k + 3) (omega arith)) λ a p.
              Gives-bind _ _ (Gives-at packet.bytes (k + 3 + 1) (omega arith))
                λ b q. Gives-parsed {Q = λ (n : ℕ). Unit {0}} _ tt)
            λ subtable_extension u.
              Gives-bind _ _ (Gives-at packet.bytes (k + 5) (omega arith)) λ version p.
                Gives-if (bit 0 version) _ _
                  (λ f.
                    Gives-bind _ _ (Gives-at packet.bytes (k + 6) (omega arith)) λ section_number q.
                      Gives-bind _ _ (Gives-at packet.bytes (k + 7) (omega arith))
                        λ last_section_number r.
                          begin_section-Steady again k (k + 8) _ w (omega arith) positive short i
                            continue)
                  λ f. Gives-parsed _ (inl i)

  short_section-Steady :
      (again : ℕ → Work Section → Parse (Work Section)) (k table_id section_length : ℕ)
      (w : Work Section)
      → k < length packet.bytes
      → 0 < section_length
      → section_length ≤ 4098
      → Idle w.stream
      → Continues k again
      → Gives
          (λ (r : Work Section). Steady r.stream)
          (short_section section_new packet again k table_id section_length w)
  unfolding short_section
  short_section-Steady again k table_id section_length w inside positive short i continue =
      Gives-if (ltb section_length (length packet.bytes - k)) _ _
        (λ e. next_section-Steady again k (k + section_length) _ (omega arith) i continue)
        λ e. begin_section-Steady again k (k + 3) _ w inside positive short i continue

  -- As many rounds as there are bytes left are enough.
  section_start-Steady :
      (fuel k : ℕ) (w : Work Section)
      → 0 < fuel
      → length packet.bytes < fuel + k
      → Idle w.stream
      → Gives (λ (r : Work Section). Steady r.stream) (section_start section_new packet fuel k w)
  unfolding section_start read_uint16
  section_start-Steady zero k w some_fuel enough i = absurd (omega arith)
  section_start-Steady (suc fuel) k w some_fuel enough i =
      let continue : Continues k (section_start section_new packet fuel) =
        λ next v later inside j. section_start-Steady fuel next v (omega arith) (omega arith) j in
      Gives-if (ltb (length packet.bytes) (k + 3)) _ _
        (λ e. Gives-parsed _ (inl (clear_section-Idle w.stream)))
        λ e.
          let inside : k + 3 ≤ length packet.bytes = ground (arith, e) in
          Gives-bind _ _ (Gives-at packet.bytes k (omega arith)) λ table_id p.
            Gives-if (table_id == 0xff) _ _
              (λ f. Gives-parsed _ (inl (clear_section-Idle w.stream)))
              λ f. Gives-bind _ _ (Gives-at packet.bytes (k + 1) (omega arith)) λ flags q.
                Gives-bind _ _
                  (Gives-bind _ _ (Gives-at packet.bytes (k + 1) (omega arith)) λ a u.
                    Gives-bind _ _ (Gives-at packet.bytes (k + 1 + 1) (omega arith))
                      λ b v. Gives-parsed {Q = λ (n : ℕ). Unit {0}} _ tt)
                  λ word u.
                    Gives-if (bit 7 flags) _ _
                      (λ g.
                        long_section-Steady _ k table_id (word % 4096 + 3) w (omega arith)
                          (omega arith) i continue)
                      λ g.
                        short_section-Steady _ k table_id (word % 4096 + 3) w (omega arith)
                          (omega arith) (omega arith) i continue

  pub push_stream-Steady :
      (stream : Stream)
      → 0 < length packet.bytes
      → Steady stream
      → Gives
          (λ (r : Work Section). Steady r.stream)
          (push_stream section_new packet (suc (length packet.bytes)) stream)
  unfolding push_stream
  push_stream-Steady stream whole s =
      let work : Work Section = record { stream = stream; sections = []; position = 0 } in
      let start = section_start-Steady (suc (length packet.bytes)) in
      let in_order =
        not (stream.continuity_counter == continuity_unset)
        && (stream.continuity_counter + 1) % 16 == packet.scram_afc_cc % 16 in
      let accumulate : (k : ℕ)
          → k ≤ 1
          → in_order ≡ true
          → Gives (λ (r : Work Section). Steady r.stream)
              (accumulate_data section_new packet
                (section_start section_new packet (suc (length packet.bytes))) k work) =
        λ k small e. elim s [
          | inl i ↦ absurd (ground (arith, e, i.counter))
          | inr (counter, (memory, p)) ↦
              accumulate_data-Steady _ k work memory (omega (arith, whole)) p
                λ next w later inside i. start next w (omega arith) (omega arith) i
        ] in
      Gives-if (packet.payload_unit_start_indicator == 0) _ _
        (λ e.
          Gives-if in_order _ _ (accumulate 0 (omega arith))
            λ f. Gives-parsed _ (inl (clear_section-Idle stream)))
        λ e. Gives-bind _ _ (Gives-at packet.bytes 0 whole) λ pointer p.
          Gives-if (pointer == 0) _ _
            (λ f. start 1 _ (omega arith) (omega arith) (clear_section-Idle stream))
            λ f.
              Gives-if in_order _ _ (accumulate 1 (omega arith))
                λ g. start (1 + pointer) _ (omega arith) (omega arith) (clear_section-Idle stream)

  -- Pushing a packet that has bytes reads none after them, writes none after a section's memory, and
  -- ends within one round per byte. It keeps every stream steady.
  pub push_section-Steady :
      (streams : ℕ → Option Stream)
      → 0 < length packet.bytes
      → AllSteady streams
      → Gives
          (λ (r : (ℕ → Option Stream) × List (Section × ℕ)). AllSteady (r.0))
          (push_section section_new packet (suc (length packet.bytes)) streams)
  unfolding push_section
  push_section-Steady streams whole s =
      let with_stream : (stream : Stream)
          → Steady stream
          → Gives (λ (r : (ℕ → Option Stream) × List (Section × ℕ)). AllSteady (r.0))
              (push_stream section_new packet (suc (length packet.bytes)) stream >>= λ w. parsed (
                (λ (pid : ℕ). if pid == packet.pid then some w.stream else streams pid),
                w.sections,
              )) =
        λ stream steady. Gives-bind _ _ (push_stream-Steady stream whole steady) λ w t.
          Gives-parsed _ λ pid other e. elim (Bool-cases (pid == packet.pid)) [
            | inl here ↦ subst Steady (ground (arith, e, here)) t
            | inr elsewhere ↦ s pid other (ground (arith, e, elsewhere))
          ] in
      elim (Option-cases (streams packet.pid)) [
        | inl e ↦
            rw (e, push_section)
              (Gives-if (packet.payload_unit_start_indicator == 0) _ _ (λ f. Gives-parsed _ s)
                λ f. with_stream (stream_new packet.pid) (inl (stream_new-Idle packet.pid)))
        | inr (stream, e) ↦ rw (e, push_section) (with_stream stream (s packet.pid stream e))
      ]
