-- ===== src/Demux/Unit.antt =====
-- gst/gst-demux/tsdemux.c: a unit is collected from the packets that carry it.
use helia.Common.{
  ℕ, ◌+◌, ◌-◌, ◌%◌, ◌^◌, ◌≤◌, ◌<◌, ◌≡◌, refl, sym, ap, subst, ◌∙◌, true, ◌&&◌, ◌||◌, Option, none,
  some, List, [], ◌∷◌, ◌++◌, ◌==◌, lookup, insert, arith, take, drop, All, append-nil, append_assoc,
}
use helia.Parsing.{Parse, parsed, fault, ◌>>=◌}
use helia.Parsing.Gives.{Gives, Gives-parsed, Gives-bind, Gives-weaken}
use helia.Pes.Header.{PesHeader}
use helia.Pes.Extension.{parse_pes_header}
use helia.Pes.Bounds.Whole.{parse_pes_header_bounds}
use helia.Demux.{empty, header, buffer, TsDemuxStream, StreamClock}
use helia.Demux.Pending.{Streams}
use helia.Demux.Queue.{
  StreamPacket, continuity_unset, max_continuity, check_continuity, start_unit, append_data,
  is_wanted, header_result, queue_in, queue_data,
}
use helia.Demux.Sound.{Holds, AllStreams}
use helia.Demux.Collecting.{IsPacket, Appended, Started, append_data-Appended}
use helia.Demux.Queued.{lookup-inserted, take_header-Started}

-- The payloads of packets, and their sizes.
abbrev pub payloads : List StreamPacket → List ℕ
payloads [] = []
payloads (packet ∷ packets) = take packet.size packet.payload ++ payloads packets

abbrev pub total_size : List StreamPacket → ℕ
total_size [] = 0
total_size (packet ∷ packets) = packet.size + total_size packets

-- Packets none of which is missing after one with the counter.
abbrev pub InOrder : ℕ → List StreamPacket → Type 0
InOrder cc [] = Unit {0}
InOrder cc (packet ∷ packets) =
    (packet.continuity_counter ≡ (cc + 1) % 16) × InOrder packet.continuity_counter packets

-- The stream that is found collects, and holds the bytes.
abbrev pub Collects : ℕ → List ℕ → Streams → Type 0
Collects pid bytes streams =
    (t : TsDemuxStream) × (lookup pid streams ≡ some t)
    × (t.state ≡ buffer)
    × (t.bytes ≡ some bytes)

expected_next :
    (cc last : ℕ)
    → last < 16
    → cc ≡ (last + 1) % 16
    → (last == continuity_unset || cc == last + 1 || last == max_continuity && cc == 0) ≡ true
expected_next cc last small e = ground (arith, small, e)

-- The stream once the packet was looked at, with a state that is known.
abbrev started_by : StreamPacket → TsDemuxStream → TsDemuxStream
started_by packet s =
    start_unit packet.payload_unit_start_indicator (check_continuity packet.continuity_counter s)

-- The stream that is found took the packet.
abbrev Took : ℕ → StreamPacket → TsDemuxStream → Streams → Type 0
Took pid packet s streams =
    (t : TsDemuxStream) × (lookup pid streams ≡ some t)
    × Appended packet (started_by packet s) t
    × (t.state ≡ buffer)
    × (t.continuity_counter ≡ packet.continuity_counter)

abbrev Began : ℕ → PesHeader → StreamPacket → TsDemuxStream → Streams → Type 0
Began pid h first s streams =
    (t : TsDemuxStream) × (lookup pid streams ≡ some t) × Started h first (started_by first s) t

module _ (clock : StreamClock) where
  open clock use {Time, Sound}

  abbrev queue_found :
      ℕ → StreamPacket → Option TsDemuxStream → Streams → Time → Parse (Streams × Time)
  queue_found pid packet none streams time = fault
  queue_found pid packet (some s) streams time = queue_data clock pid packet s streams time

  -- Packets for a stream one after the other.
  abbrev pub queue_packets : ℕ → List StreamPacket → Streams → Time → Parse (Streams × Time)
  queue_packets pid [] streams time = parsed (streams, time)
  queue_packets pid (packet ∷ packets) streams time = do
    (after, later) ← queue_found pid packet (lookup pid streams) streams time
    queue_packets pid packets after later

  queue_next-Appended :
      (pid : ℕ) (packet : StreamPacket) (s : TsDemuxStream) (streams : Streams) (time : Time)
      → IsPacket packet
      → s.state ≡ buffer
      → Holds buffer s
      → s.current_size + packet.size ≤ 2 ^ 31
      → s.continuity_counter < 16
      → packet.continuity_counter ≡ (s.continuity_counter + 1) % 16
      → Gives (λ r. Took pid packet s (r.0)) (queue_data clock pid packet s streams time)
  unfolding queue_data start_unit check_continuity
  queue_next-Appended pid packet s streams time p e v small low next =
      let started : TsDemuxStream = started_by packet s in
      let collects : started.state ≡ buffer =
        rw (expected_next packet.continuity_counter s.continuity_counter low next, e) refl in
      let step =
        Gives-bind (append_data packet started) (λ after. parsed (insert pid after streams, time))
          (append_data-Appended packet started p v small)
          (λ after u.
            Gives-parsed (insert pid after streams, time)
              (
                after,
                lookup-inserted pid after streams,
                u,
                u.state ∙ collects,
                u.continuity_counter,
              )) in
      subst
        (λ state.
          Gives (λ r. Took pid packet s (r.0))
            (queue_in clock state pid packet started streams time))
        (sym collects) step

  queue_packets-Collects :
      (pid : ℕ) (packets : List StreamPacket) (s : TsDemuxStream) (bytes : List ℕ)
      (streams : Streams) (time : Time)
      → All IsPacket packets
      → lookup pid streams ≡ some s
      → s.state ≡ buffer
      → Holds buffer s
      → s.bytes ≡ some bytes
      → s.current_size + total_size packets ≤ 2 ^ 31
      → s.continuity_counter < 16
      → InOrder s.continuity_counter packets
      → Gives
          (λ r. Collects pid (bytes ++ payloads packets) (r.0))
          (queue_packets pid packets streams time)
  unfolding start_unit check_continuity
  queue_packets-Collects pid [] s bytes streams time p found e v held small low order =
      Gives-parsed _ (s, found, e, held ∙ ap some (sym (append-nil bytes)))
  queue_packets-Collects pid (packet ∷ packets) s bytes streams time (p, ps) found e v held small
        low (next, order) =
      rw found (
        Gives-bind _ _
          (queue_next-Appended pid packet s streams time p e v (omega (arith, small)) low next)
          (λ r (t, there, a, collects, counter).
            let rest =
              queue_packets-Collects pid packets t (bytes ++ take packet.size packet.payload) r.0
                r.1 ps there collects a.sound (a.bytes bytes held)
                (omega (arith, small, a.current_size)) (omega (arith, counter, next))
                (subst (λ cc. InOrder cc packets) (sym counter) order) in
            Gives-weaken _ rest (λ q (u, here, c, b). (
              u,
              here,
              c,
              b ∙ ap some (append_assoc bytes (take packet.size packet.payload) (payloads packets)),
            ))))

  queue_first-Started :
      (pid : ℕ) (h : PesHeader) (first : StreamPacket) (s : TsDemuxStream) (streams : Streams)
      (time : Time)
      → IsPacket first
      → first.payload_unit_start_indicator ≡ true
      → parse_pes_header first.payload first.size ≡ parsed h
      → is_wanted s.target_pes_substream h ≡ true
      → s.state ≡ empty
      → s.bytes ≡ none
      → AllStreams streams
      → Sound time
      → Gives
          (λ r. (AllStreams (r.0) × Sound (r.1)) × Began pid h first s (r.0))
          (queue_data clock pid first s streams time)
  unfolding queue_data start_unit check_continuity
  queue_first-Started pid h first s streams time p starts header_parsed wanted e free all w =
      let started : TsDemuxStream = started_by first s in
      let within =
        parse_pes_header_bounds first.payload first.size h p.bytes p.room header_parsed in
      let ready : started.state ≡ header = rw (starts, e) (ground arith) in
      let step =
        take_header-Started clock pid h first started streams time p within ready free all w in
      subst
        (λ state.
          Gives (λ r. (AllStreams (r.0) × Sound (r.1)) × Began pid h first s (r.0))
            (queue_in clock state pid first started streams time))
        (sym ready)
        (subst
          (λ parsing.
            Gives (λ r. (AllStreams (r.0) × Sound (r.1)) × Began pid h first s (r.0))
              (header_result clock parsing pid first started streams time))
          (sym header_parsed) (rw wanted step))

  -- A unit whose header ends within its first packet, for a stream that waits for one, is collected
  -- without a loss: once its packets are queued in order, the stream holds the bytes behind the header of
  -- the first one and those of the others, in a buffer that grew as needed. It is a unit that the stream
  -- wants, and of 2 GB at most.
  pub queue_packets-payloads :
      (pid : ℕ) (h : PesHeader) (first : StreamPacket) (rest : List StreamPacket)
      (s : TsDemuxStream) (streams : Streams) (time : Time)
      → IsPacket first
      → All IsPacket rest
      → first.payload_unit_start_indicator ≡ true
      → first.continuity_counter < 16
      → InOrder first.continuity_counter rest
      → first.size + total_size rest ≤ 2 ^ 31
      → parse_pes_header first.payload first.size ≡ parsed h
      → is_wanted s.target_pes_substream h ≡ true
      → lookup pid streams ≡ some s
      → s.state ≡ empty
      → s.bytes ≡ none
      → AllStreams streams
      → Sound time
      → Gives
          (λ r.
            Collects pid
              (take (first.size - h.header_size) (drop h.header_size first.payload)
                ++ payloads rest)
              (r.0))
          (queue_packets pid (first ∷ rest) streams time)
  unfolding start_unit check_continuity
  queue_packets-payloads pid h first rest s streams time p ps starts low order small header_parsed
        wanted found e free all w =
      rw found (
        Gives-bind _ _
          (queue_first-Started pid h first s streams time p starts header_parsed wanted e free all
            w)
          (λ r (sound, (t, there, k)).
            queue_packets-Collects pid rest t
              (take (first.size - h.header_size) (drop h.header_size first.payload)) r.0 r.1 ps
              there k.state k.sound k.bytes (omega (arith, small, k.current_size))
              (omega (arith, low, k.continuity_counter))
              (subst (λ cc. InOrder cc rest) (sym k.continuity_counter) order)))
