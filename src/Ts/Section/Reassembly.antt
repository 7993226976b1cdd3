-- ===== src/Ts/Section/Reassembly.antt =====
-- gst/gst-demux/mpegtspacketizer.c: a section that is split over the packets of its PID.
use helia.Common.{
  ℕ, suc, ◌+◌, ◌-◌, ◌%◌, ◌≤◌, ◌<◌, ◌≡◌, refl, sym, ap, subst, ◌∙◌, ◌⊎◌, inl, inr, not, ◌&&◌, Option,
  none, some, List, [], ◌∷◌, ◌++◌, ltb, ◌==◌, length, take, drop, get_elem?, append_assoc,
  append-nil, length-append, arith,
}
use helia.Parsing.{Parse, parsed, ◌>>=◌}
use helia.Parsing.Gives.{Gives, Gives-parsed, Gives-bind, Gives-if, Gives-weaken}
use helia.Ts.Window.Search.{Gives-at}
use helia.Ts.Section.{Stream, continuity_unset, section_bytes, parse_section_header}
use helia.Ts.Section.Push.{
  Payload, Work, min, sub32, with_section, store, accumulate_data, section_start, push_stream,
}
use helia.Ts.Section.Invariant.{Pending, Idle, clear_section-Idle}
use helia.Ts.Section.Store.{Stored, store-Stored}

take-all : (xs ys : List ℕ) → take (length xs) (xs ++ ys) ≡ xs
take-all [] ys = refl
take-all (x ∷ xs) ys = ap (λ (zs : List ℕ). x ∷ zs) (take-all xs ys)

take-whole : (xs : List ℕ) → take (length xs) xs ≡ xs
take-whole [] = refl
take-whole (x ∷ xs) = ap (λ (zs : List ℕ). x ∷ zs) (take-whole xs)

get_elem?-after : (xs ys : List ℕ) → get_elem? (xs ++ ys) (length xs) ≡ get_elem? ys 0
get_elem?-after [] ys = refl
get_elem?-after (x ∷ xs) ys = get_elem?-after xs ys

-- The bytes of packets, one after the other.
abbrev pub bytes_of : List Payload → List ℕ
bytes_of [] = []
bytes_of (p ∷ packets) = p.bytes ++ bytes_of packets

-- Packets that go on with a section after one with this counter: none starts a section, and each
-- counts one further.
abbrev pub InOrder : ℕ → List Payload → Type 0
InOrder counter [] = Unit
InOrder counter (p ∷ packets) =
    (p.payload_unit_start_indicator ≡ 0)
    × (p.scram_afc_cc % 16 ≡ (counter + 1) % 16)
    × InOrder (p.scram_afc_cc % 16) packets

-- What may follow the last byte of a section: less than the start of another one, or stuffing.
abbrev pub IsStuffing : List ℕ → Type 0
IsStuffing bytes = (length bytes < 3) ⊎ (get_elem? bytes 0 ≡ some 0xff)

module _ {Section : Type 0} (section_new : ℕ → List ℕ → Option Section) where
  -- Packets of one PID, pushed one after the other.
  unfoldable pub push_all : List Payload → Stream → Parse (Stream × List (Section × ℕ))
  push_all [] stream = parsed (stream, [])
  push_all (p ∷ packets) stream = do
    w ← push_stream section_new p (suc (length p.bytes)) stream
    (after, sections) ← push_all packets w.stream
    parsed (after, w.sections ++ sections)

  -- An expected packet goes to the section that is pending.
  push_stream_in_order :
      (p : Payload) (fuel : ℕ) (stream : Stream) (Q : Work Section → Type 0)
      → p.payload_unit_start_indicator ≡ 0
      → stream.continuity_counter < 16
      → p.scram_afc_cc % 16 ≡ (stream.continuity_counter + 1) % 16
      → Gives Q (
          accumulate_data section_new p
            (section_start section_new p fuel)
            0
            (record { stream = stream; sections = []; position = 0 }))
      → Gives Q (push_stream section_new p fuel stream)
  unfolding push_stream
  push_stream_in_order p fuel stream Q no_start small next g =
      Gives-if (p.payload_unit_start_indicator == 0) _ _
        (λ e.
          Gives-if
            (not (stream.continuity_counter == continuity_unset)
              && (stream.continuity_counter + 1) % 16 == p.scram_afc_cc % 16)
            _ _ (λ f. g) λ f. absurd (ground (arith, f, next, small)))
        λ e. absurd (ground (arith, e, no_start))

  -- A packet that does not complete the section is appended to it.
  middle_packet :
      (p : Payload) (fuel : ℕ) (stream : Stream) (memory : List ℕ)
      → Pending stream memory
      → stream.section_offset + length p.bytes < stream.section_length
      → Gives
          (λ (w : Work Section).
            Stored p.bytes memory
              (record stream { continuity_counter = p.scram_afc_cc % 16 })
              w.stream
            × (w.sections ≡ []))
          (accumulate_data section_new p
            (section_start section_new p fuel)
            0
            (record { stream = stream; sections = []; position = 0 }))
  unfolding accumulate_data
  middle_packet p fuel stream memory v room =
      let to_read = min (sub32 stream.section_length stream.section_offset) (length p.bytes - 0) in
      let wraps : sub32 stream.section_length stream.section_offset
          ≡ stream.section_length - stream.section_offset =
        omega (arith, v.missing, v.short) in
      let all : to_read ≡ length p.bytes = ground (arith, wraps, room) in
      let bytes : take to_read (drop 0 p.bytes) ≡ p.bytes = rw all (take-whole p.bytes) in
      Gives-bind _ _
        (store-Stored (take to_read (drop 0 p.bytes)) memory
          (record stream { continuity_counter = p.scram_afc_cc % 16 }) v.there v.size v.short
          (rw bytes (omega (arith, room))))
        λ stored s.
          Gives-if (ltb stored.section_offset stored.section_length) _ _
            (λ e. Gives-parsed _ (
              subst
                  (λ (bs : List ℕ).
                    Stored bs memory (record stream { continuity_counter = p.scram_afc_cc % 16 })
                      stored)
                  bytes s,
              refl,
            ))
            λ e. absurd (ground (arith, e, s.section_offset, s.section_length, room, bytes))

  -- After the last byte of a section, stuffing ends the packet.
  stuffing_ends :
      (p : Payload) (fuel : ℕ) (chunk stuffing : List ℕ) (w : Work Section)
      → p.bytes ≡ chunk ++ stuffing
      → IsStuffing stuffing
      → Gives
          (λ (r : Work Section). Idle r.stream × (r.sections ≡ w.sections))
          (section_start section_new p (suc fuel) (length chunk) w)
  unfolding section_start
  stuffing_ends p fuel chunk stuffing w whole ends =
      let size : length p.bytes ≡ length chunk + length stuffing =
        ap length whole ∙ length-append chunk stuffing in
      Gives-if (ltb (length p.bytes) (length chunk + 3)) _ _
        (λ e. Gives-parsed _ (clear_section-Idle w.stream, refl))
        λ e.
          let inside : length chunk + 3 ≤ length p.bytes = ground (arith, e) in
          let here : get_elem? p.bytes (length chunk) ≡ some 0xff = elim ends [
            | inl few ↦ absurd (omega (arith, few, inside, size))
            | inr stuffed ↦ rw whole (get_elem?-after chunk stuffing ∙ stuffed)
          ] in
          Gives-bind _ _ (Gives-at p.bytes (length chunk) (omega arith)) λ b q.
            Gives-if (b == 0xff) _ _ (λ f. Gives-parsed _ (clear_section-Idle w.stream, refl))
              λ f. absurd (ground (arith, here, q, f))

  -- A complete section is handed to libgstmpegts with all its bytes.
  complete_section :
      (stream : Stream) (memory : List ℕ) (s : Section)
      → stream.section_data ≡ some memory
      → section_new stream.pid (take stream.section_length memory) ≡ some s
      → (parse_section_header section_new stream).1 ≡ some (s, stream.offset)
  unfolding parse_section_header
  complete_section stream memory s there accepted =
      let bytes : section_bytes stream ≡ take stream.section_length memory =
        ap
          (λ (o : Option (List ℕ)).
            take stream.section_length (elim o [ none ↦ [] | some section ↦ section ]))
          there in
      let e : section_new stream.pid (section_bytes stream) ≡ some s =
        ap (section_new stream.pid) bytes ∙ accepted in
      rw (e, parse_section_header) refl

  -- The packet with the last bytes of a section completes it.
  last_packet :
      (p : Payload) (fuel : ℕ) (stream : Stream) (memory chunk stuffing : List ℕ) (s : Section)
      → Pending stream memory
      → p.bytes ≡ chunk ++ stuffing
      → IsStuffing stuffing
      → stream.section_offset + length chunk ≡ stream.section_length
      → section_new stream.pid (take stream.section_offset memory ++ chunk) ≡ some s
      → Gives
          (λ (r : Work Section). Idle r.stream × (r.sections ≡ (s, stream.offset) ∷ []))
          (accumulate_data section_new p
            (section_start section_new p (suc fuel))
            0
            (record { stream = stream; sections = []; position = 0 }))
  unfolding accumulate_data
  last_packet p fuel stream memory chunk stuffing s v whole ends exact accepted =
      let to_read = min (sub32 stream.section_length stream.section_offset) (length p.bytes - 0) in
      let size : length p.bytes ≡ length chunk + length stuffing =
        ap length whole ∙ length-append chunk stuffing in
      let wraps : sub32 stream.section_length stream.section_offset ≡ length chunk =
        omega (arith, v.missing, v.short, exact) in
      let all : to_read ≡ length chunk = ground (arith, wraps, size) in
      let bytes : take to_read (drop 0 p.bytes) ≡ chunk =
        rw (all, whole) (take-all chunk stuffing) in
      let began : Stream = record stream { continuity_counter = p.scram_afc_cc % 16 } in
      let stores : Gives (Stored chunk memory began) (store (take to_read (drop 0 p.bytes)) began) =
        rw bytes (store-Stored chunk memory began v.there v.size v.short (omega (arith, exact))) in
      Gives-bind _ _ stores λ stored t.
        let all_there : stored.section_length ≡ stored.section_offset =
          omega (arith, t.section_offset, t.section_length, exact) in
        let accepted_here : section_new stored.pid (take stored.section_length t.written) ≡ some s =
          ap (λ (n : ℕ). section_new stored.pid (take n t.written)) all_there
          ∙ ap (section_new stored.pid) t.front
          ∙ ap (λ (pid : ℕ). section_new pid (take stream.section_offset memory ++ chunk)) t.pid
          ∙ accepted in
        let (after, section) = parse_section_header section_new stored in
        let done : section ≡ some (s, stored.offset) =
          complete_section stored t.written s t.there accepted_here in
        let w : Work Section = record {
          stream = after;
          sections = with_section [] section;
          position = 0 + to_read;
        } in
        Gives-if (ltb stored.section_offset stored.section_length) _ _
          (λ e. absurd (ground (arith, e, all_there)))
          λ e.
            let here : length chunk ≡ 0 + to_read = omega (arith, all) in
            subst
              (λ (n : ℕ).
                Gives (λ (r : Work Section). Idle r.stream × (r.sections ≡ (s, stream.offset) ∷ []))
                  (section_start section_new p (suc fuel) n w))
              here
              (Gives-weaken _ (stuffing_ends p fuel chunk stuffing w whole ends) λ r (idle, same). (
                idle,
                same ∙ ap (with_section []) done ∙ ap (λ (offset : ℕ). (s, offset) ∷ []) t.offset,
              ))

  -- A section whose bytes come in packets that count on and have no payload_unit_start_indicator, the
  -- last of which may end in stuffing, is handed to libgstmpegts as a whole, and is the only one. It has the stream's offset, and no section is
  -- pending afterwards.
  pub push_all-reassembles :
      (packets : List Payload) (p : Payload) (stream : Stream) (memory chunk stuffing : List ℕ)
      (s : Section)
      → Pending stream memory
      → stream.continuity_counter < 16
      → InOrder stream.continuity_counter (packets ++ (p ∷ []))
      → p.bytes ≡ chunk ++ stuffing
      → 0 < length chunk
      → IsStuffing stuffing
      → stream.section_offset + (length (bytes_of packets) + length chunk) ≡ stream.section_length
      → section_new stream.pid (take stream.section_offset memory ++ (bytes_of packets ++ chunk))
        ≡ some s
      → Gives
          (λ (r : Stream × List (Section × ℕ)). Idle (r.0) × (r.1 ≡ (s, stream.offset) ∷ []))
          (push_all (packets ++ (p ∷ [])) stream)
  unfolding push_all
  push_all-reassembles [] p stream memory chunk stuffing s v small (no_start, next, u) whole
        some_left ends exact accepted =
      Gives-bind _ _
        (push_stream_in_order p (suc (length p.bytes)) stream _ no_start small next (
          last_packet p (length p.bytes) stream memory chunk stuffing s v whole ends
            (omega (arith, exact)) accepted))
        λ w (idle, same). Gives-parsed _ (idle, append-nil w.sections ∙ same)
  push_all-reassembles (q ∷ packets) p stream memory chunk stuffing s v small
        (no_start, next, later) whole some_left ends exact accepted =
      let size : length (q.bytes ++ bytes_of packets) ≡ length q.bytes + length (bytes_of packets) =
        length-append q.bytes (bytes_of packets) in
      Gives-bind _ _
        (push_stream_in_order q (suc (length q.bytes)) stream _ no_start small next (
          middle_packet q (suc (length q.bytes)) stream memory v
            (omega (arith, exact, size, some_left))))
        λ w (t, none_yet).
          let counted : w.stream.continuity_counter ≡ q.scram_afc_cc % 16 = t.counter in
          let front : take w.stream.section_offset t.written ++ (bytes_of packets ++ chunk)
              ≡ take stream.section_offset memory ++ ((q.bytes ++ bytes_of packets) ++ chunk) =
            ap (λ (bytes : List ℕ). bytes ++ (bytes_of packets ++ chunk)) t.front
            ∙ append_assoc (take stream.section_offset memory) q.bytes (bytes_of packets ++ chunk)
            ∙ ap (λ (bytes : List ℕ). take stream.section_offset memory ++ bytes)
                (sym (append_assoc q.bytes (bytes_of packets) chunk)) in
          let rest =
            push_all-reassembles packets p w.stream t.written chunk stuffing s
              (record {
                there = t.there;
                size = t.size ∙ v.size ∙ sym t.section_length;
                missing = omega (arith, t.section_offset, t.section_length, exact, size, some_left);
                short = omega (arith, t.section_length, v.short);
              })
              (omega (arith, counted))
              (subst (λ (counter : ℕ). InOrder counter (packets ++ (p ∷ []))) (sym counted) later)
              whole some_left ends (omega (arith, t.section_offset, t.section_length, exact, size))
              (ap (section_new w.stream.pid) front
                ∙ ap
                    (λ (pid : ℕ). section_new pid (
                      take stream.section_offset memory
                      ++ ((q.bytes ++ bytes_of packets) ++ chunk)))
                    t.pid
                ∙ accepted) in
          Gives-bind _ _ rest λ r (idle, same). Gives-parsed _ (
            idle,
            ap (λ (sections : List (Section × ℕ)). sections ++ r.1) none_yet
                ∙ same
                ∙ ap (λ (offset : ℕ). (s, offset) ∷ []) t.offset,
          )
