-- ===== src/Demux/Queued.antt =====
-- gst/gst-demux/tsdemux.c: queueing a packet keeps the streams sound.
use helia.Common.{
  ℕ, ◌+◌, ◌^◌, ◌≤◌, ◌≡◌, ◌≢◌, refl, sym, subst, ◌∙◌, Bool, true, false, not, ◌&&◌, ◌||◌, none, some,
  inl, inr, ◌==◌, if◌then◌else◌, lookup, insert, lookup-insert, arith, Bool-cases, Option-cases,
}
use helia.Parsing.{Parse, parsed, bad, need_more, fault}
use helia.Parsing.Gives.{Gives, Gives-parsed, Gives-bind, Gives-if, Gives-weaken}
use helia.Pes.Header.{PesHeader}
use helia.Pes.Extension.{parse_pes_header}
use helia.Pes.Bounds.Whole.{Within, parse_pes_header_safe, parse_pes_header_bounds}
use helia.Ts.Window.{clock_time_none}
use helia.Demux.{
  PendingPacketState, empty, header, buffer, discont, TsDemuxStream, StreamClock, is_empty_state,
}
use helia.Demux.Pending.{Streams}
use helia.Demux.Queue.{
  StreamPacket, continuity_unset, max_continuity, check_continuity, start_unit, drop_data, stop,
  is_wanted, settle_times, take_header, header_result, queue_in, queue_data,
}
use helia.Demux.Sound.{
  Holds, IsStream, SameData, AllStreams, SameFound, SameStreams, refl-SameData, record_dts-Gives,
  record_pts-Gives, check_pending_buffers-Gives,
}
use helia.Demux.Collecting.{IsPacket, Started, append_data-Appended, start_buffer-Started}

-- A stream about to queue a packet: it collects, starts to, or drops.
abbrev IsStarted : PendingPacketState → TsDemuxStream → Type 0
IsStarted empty s = ⊥
IsStarted header s = s.bytes ≡ none
IsStarted buffer s = Holds buffer s
IsStarted discont s = Unit {0}

abbrev next_state : Bool → Bool → PendingPacketState → PendingPacketState
next_state expected starts state =
    let kept = if expected || is_empty_state state then state else discont in
    if is_empty_state kept then (if starts then header else discont) else kept

next_state-IsStarted :
    (expected starts : Bool) (state : PendingPacketState) (s t : TsDemuxStream)
    → t.bytes ≡ s.bytes
    → t.current_size ≡ s.current_size
    → t.allocated_size ≡ s.allocated_size
    → Holds state s
    → IsStarted (next_state expected starts state) t
next_state-IsStarted true true empty s t b c a h = b ∙ h
next_state-IsStarted false true empty s t b c a h = b ∙ h
next_state-IsStarted true false empty s t b c a h = tt
next_state-IsStarted false false empty s t b c a h = tt
next_state-IsStarted true starts header s t b c a h = b ∙ h
next_state-IsStarted false starts header s t b c a h = tt
next_state-IsStarted true starts discont s t b c a h = tt
next_state-IsStarted false starts discont s t b c a h = tt
next_state-IsStarted false starts buffer s t b c a h = tt
next_state-IsStarted true starts buffer s t b c a (bytes, held, full, fits, room) =
    (bytes, b ∙ held, full ∙ sym c, omega (arith, fits, a, c), omega (arith, room, a))

insert-AllStreams :
    (pid : ℕ) (s : TsDemuxStream) (streams : Streams)
    → IsStream s
    → AllStreams streams
    → AllStreams (insert pid s streams)
insert-AllStreams pid s streams v all n t e = elim (Bool-cases (pid == n)) [
  | inl here ↦
      let same : s ≡ t = ground (arith, e, here, lookup-insert pid n s streams) in
      subst IsStream same v
  | inr away ↦ all n t (ground (arith, e, away, lookup-insert pid n s streams))
]

Holds-same :
    (state : PendingPacketState) (s t : TsDemuxStream)
    → SameData s t
    → Holds state s
    → Holds state t
Holds-same empty s t d h = d.bytes ∙ h
Holds-same header s t d h = d.bytes ∙ h
Holds-same discont s t d h = d.bytes ∙ h
Holds-same buffer s t d (bytes, held, full, fits, room) = (
  bytes,
  d.bytes ∙ held,
  full ∙ sym d.current_size,
  omega (arith, fits, d.current_size, d.allocated_size),
  omega (arith, room, d.allocated_size),
)

SameData-IsStream : (s t : TsDemuxStream) → SameData s t → IsStream s → IsStream t
SameData-IsStream s t d h = subst (λ st. Holds st t) (sym d.state) (Holds-same s.state s t d h)

same-AllStreams :
    (streams after : Streams) → SameStreams streams after → AllStreams streams → AllStreams after
same-AllStreams streams after same all n t e = elim (Option-cases (lookup n streams)) [
  | inl z ↦
      let none_found : SameFound none (some t) =
        subst (λ o. SameFound o (some t)) z (subst (SameFound (lookup n streams)) e (same n)) in
      absurd none_found
  | inr (s, z) ↦
      let d : SameData s t =
        subst (λ o. SameFound o (some t)) z (subst (SameFound (lookup n streams)) e (same n)) in
      SameData-IsStream s t d (all n s z)
]

trans-SameData : (s t u : TsDemuxStream) → SameData s t → SameData t u → SameData s u
trans-SameData s t u d e = record {
  state = e.state ∙ d.state;
  bytes = e.bytes ∙ d.bytes;
  current_size = e.current_size ∙ d.current_size;
  allocated_size = e.allocated_size ∙ d.allocated_size;
  continuity_counter = e.continuity_counter ∙ d.continuity_counter;
}

-- What was found is found after a change of times.
same-found :
    (pid : ℕ) (s t : TsDemuxStream) (streams after : Streams)
    → SameStreams streams after
    → lookup pid streams ≡ some t
    → SameData s t
    → (u : TsDemuxStream) × (lookup pid after ≡ some u) × SameData s u
same-found pid s t streams after same found d =
    let here : SameFound (some t) (lookup pid after) =
      subst (λ o. SameFound o (lookup pid after)) found (same pid) in
    elim (Option-cases (lookup pid after)) [
      | inl z ↦ absurd (subst (SameFound (some t)) z here)
      | inr (u, z) ↦ (u, z, trans-SameData s t u d (subst (SameFound (some t)) z here))
    ]

pub lookup-inserted :
    (pid : ℕ) (s : TsDemuxStream) (streams : Streams) → lookup pid (insert pid s streams) ≡ some s
lookup-inserted pid s streams =
    let here : (pid == pid) ≡ true = ground arith in rw (lookup-insert pid pid s streams, here) refl

-- A stream of its own data, among sound streams.
abbrev Settled : ℕ → TsDemuxStream → Streams → Type 0
Settled pid s streams =
    AllStreams streams × ((t : TsDemuxStream) × (lookup pid streams ≡ some t) × SameData s t)

stored-Settled :
    (pid : ℕ) (s t : TsDemuxStream) (streams : Streams)
    → SameData s t
    → IsStream t
    → AllStreams streams
    → Settled pid s (insert pid t streams)
stored-Settled pid s t streams d v all =
    (insert-AllStreams pid t streams v all, (t, lookup-inserted pid t streams, d))

module _ (clock : StreamClock) where
  open clock use {Time, Sound}

  settle_times-Gives :
      (pid : ℕ) (s : TsDemuxStream) (streams : Streams) (time : Time)
      → IsStream s
      → AllStreams streams
      → Sound time
      → Gives (λ r. Settled pid s (r.0) × Sound (r.1)) (settle_times clock pid s streams time)
  settle_times-Gives pid s streams time v all w =
      let stored = insert pid s streams in
      let timed : TsDemuxStream = record s {
        first_pts = if s.pts == clock_time_none then s.dts else s.pts;
      } in
      let kept : SameData s timed = record {
        state = refl;
        bytes = refl;
        current_size = refl;
        allocated_size = refl;
        continuity_counter = refl;
      } in
      let (sound, (t, found, d)) = stored-Settled pid s s streams (refl-SameData s) v all in
      Gives-if (s.pending_ts && (not (s.pts == clock_time_none) || not (s.dts == clock_time_none)))
        _ _
        (λ e. Gives-bind _ _ (check_pending_buffers-Gives clock stored time w) (λ r (same, x).
          Gives-parsed _ (
            (same-AllStreams stored r.1 same sound, same-found pid s t stored r.1 same found d),
            x,
          )))
        (λ e.
          Gives-if (s.first_pts == clock_time_none) _ _
            (λ e.
              Gives-parsed _
                (stored-Settled pid s timed streams kept (SameData-IsStream s timed kept v) all, w))
            (λ e. Gives-parsed _ (stored-Settled pid s s streams (refl-SameData s) v all, w)))

  -- A wanted unit starts the buffer of its stream.
  pub take_header-Started :
      (pid : ℕ) (h : PesHeader) (packet : StreamPacket) (s : TsDemuxStream) (streams : Streams)
      (time : Time)
      → IsPacket packet
      → Within packet.size h
      → s.state ≡ header
      → s.bytes ≡ none
      → AllStreams streams
      → Sound time
      → Gives
          (λ r.
            (AllStreams (r.0) × Sound (r.1))
            × ((t : TsDemuxStream) × (lookup pid (r.0) ≡ some t) × Started h packet s t))
          (take_header clock pid h packet s streams time)
  unfolding take_header
  take_header-Started pid h packet s streams time p n e free all w =
      Gives-bind _ _ (record_dts-Gives clock h.dts s time w) (λ a (d, x).
        Gives-bind _ _ (record_pts-Gives clock h.pts a.0 a.1 x) (λ b (f, y).
          let free' = f.bytes ∙ d.bytes ∙ free in
          let v : IsStream b.0 = subst (λ st. Holds st b.0) (sym (f.state ∙ d.state ∙ e)) free' in
          Gives-bind _ _ (settle_times-Gives pid b.0 streams b.1 v all y)
            (λ c ((sound, (t, found, k)), z).
              let known = k.continuity_counter ∙ f.continuity_counter ∙ d.continuity_counter in
              rw found (
                Gives-bind _ _ (start_buffer-Started h packet t p n (k.bytes ∙ free')) (λ after u.
                  let kept : Started h packet s after = record {
                    sound = u.sound;
                    bytes = u.bytes;
                    state = u.state;
                    current_size = u.current_size;
                    continuity_counter = u.continuity_counter ∙ known;
                  } in
                  let v : IsStream after = subst (λ st. Holds st after) (sym u.state) u.sound in
                  Gives-parsed _ (
                    (insert-AllStreams pid after c.0 v sound, z),
                    (after, lookup-inserted pid after c.0, kept),
                  ))))))

  header_result-Gives :
      (parsing : Parse PesHeader) (pid : ℕ) (packet : StreamPacket) (s : TsDemuxStream)
      (streams : Streams) (time : Time)
      → parsing ≢ fault
      → ((h : PesHeader) → parsing ≡ parsed h → Within packet.size h)
      → IsPacket packet
      → s.state ≡ header
      → s.bytes ≡ none
      → AllStreams streams
      → Sound time
      → Gives
          (λ r. AllStreams (r.0) × Sound (r.1))
          (header_result clock parsing pid packet s streams time)
  header_result-Gives fault pid packet s streams time safe within p e free all w =
      absurd (safe refl)
  header_result-Gives need_more pid packet s streams time safe within p e free all w =
      Gives-parsed _ (insert-AllStreams pid (stop s) streams free all, w)
  header_result-Gives bad pid packet s streams time safe within p e free all w =
      Gives-parsed _ (insert-AllStreams pid (stop s) streams free all, w)
  header_result-Gives (parsed h) pid packet s streams time safe within p e free all w =
      Gives-if (is_wanted s.target_pes_substream h) _ _
        (λ f.
          Gives-weaken _
            (take_header-Started pid h packet s streams time p (within h refl) e free all w)
            (λ r (sound, rest). sound))
        (λ f. Gives-parsed _ (insert-AllStreams pid (stop s) streams free all, w))

  queue_in-Gives :
      (state : PendingPacketState) (pid : ℕ) (packet : StreamPacket) (s : TsDemuxStream)
      (streams : Streams) (time : Time)
      → s.state ≡ state
      → IsStarted state s
      → IsPacket packet
      → s.current_size + packet.size ≤ 2 ^ 31
      → AllStreams streams
      → Sound time
      → Gives (λ r. AllStreams (r.0) × Sound (r.1)) (queue_in clock state pid packet s streams time)
  unfolding drop_data
  queue_in-Gives empty pid packet s streams time e v p small all w = absurd v
  queue_in-Gives header pid packet s streams time e v p small all w =
      header_result-Gives (parse_pes_header packet.payload packet.size) pid packet s streams time
        (parse_pes_header_safe packet.payload packet.size p.bytes p.room)
        (λ h f. parse_pes_header_bounds packet.payload packet.size h p.bytes p.room f) p e v all w
  queue_in-Gives buffer pid packet s streams time e v p small all w =
      Gives-bind _ _ (append_data-Appended packet s p v small) (λ after u.
        let kept : IsStream after = subst (λ st. Holds st after) (sym (u.state ∙ e)) u.sound in
        Gives-parsed _ (insert-AllStreams pid after streams kept all, w))
  queue_in-Gives discont pid packet s streams time e v p small all w = Gives-parsed _ (
    insert-AllStreams pid (drop_data s) streams (subst (λ st. Holds st (drop_data s)) (sym e) refl)
        all,
    w,
  )

  -- Queueing a packet of a sound stream among sound ones gives a result: no byte is read outside the
  -- payload and the one behind it or written outside the stream's memory, no assertion fails, and the
  -- memory grows in a loop that ends; and all streams and the packetizer stay sound, if the stream holds
  -- 2 GB at most with the packet.
  pub queue_data-AllStreams :
      (pid : ℕ) (packet : StreamPacket) (s : TsDemuxStream) (streams : Streams) (time : Time)
      → IsPacket packet
      → IsStream s
      → AllStreams streams
      → s.current_size + packet.size ≤ 2 ^ 31
      → Sound time
      → Gives (λ r. AllStreams (r.0) × Sound (r.1)) (queue_data clock pid packet s streams time)
  unfolding queue_data start_unit check_continuity
  queue_data-AllStreams pid packet s streams time p v all small w =
      let cc = packet.continuity_counter in
      let expected =
        s.continuity_counter == continuity_unset
        || cc == s.continuity_counter + 1
        || s.continuity_counter == max_continuity && cc == 0 in
      let started : TsDemuxStream =
        start_unit packet.payload_unit_start_indicator (check_continuity cc s) in
      queue_in-Gives started.state pid packet started streams time refl
        (next_state-IsStarted expected packet.payload_unit_start_indicator s.state s started refl
          refl refl v)
        p small all w
