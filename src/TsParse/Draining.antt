-- ===== src/TsParse/Draining.antt =====
-- gst/gst-demux/mpegtsparse.c: pending buffers go out with times that are paced between two PCRs.
use helia.Common.{
  ℕ, ◌+◌, ◌-◌, ◌%◌, ◌^◌, Bool, true, false, not, ◌&&◌, ◌||◌, Option, none, some, List, [], ◌∷◌,
  ◌++◌, ltb, ◌==◌, if◌then◌else◌, length,
}
use helia.Ts.Window.{sub64, clock_time_none}
use helia.Ts.Groups.{add64}
use helia.Ts.Clock.{is_valid}
use helia.TsParse.{
  EventType, segment, eos, other, TimedBuffer, TsParser, get_pending_timestamp_diff,
}

-- The element's pads, by GStreamer: gst_pad_push with the flow combiner; the events that start the
-- stream, for a packet size; and other events.
pub record Downstream : Type 1 where
  pub Out : Type 0
  pub Flow : Type 0
  pub ok : Flow
  pub is_ok : Flow → Bool
  pub push : TimedBuffer → Out → Flow × Out
  pub start_stream : ℕ → Bool → Out → Out
  pub forward_event : EventType → Out → Out

-- The start, the duration and the number of bytes between two PCRs.
pub record Pace : Type 0 where
  pub start_ts : ℕ
  pub pcr_diff : ℕ
  pub pcr_bytes : ℕ

-- From the end of the list to its start.
abbrev pub oldest_first : List TimedBuffer → List TimedBuffer
oldest_first [] = []
oldest_first (newest ∷ buffers) = oldest_first buffers ++ newest ∷ []

unfoldable pub pace_of : Bool → TimedBuffer → TsParser → Option Pace
pace_of drain_all newest p =
    let pcr_bytes = sub64 p.bytes_since_pcr (length newest.bytes) in
    let pending_diff = get_pending_timestamp_diff p.pending_buffers in
    let observed =
      if is_valid p.current_pcr && ltb p.previous_pcr p.current_pcr
      then p.current_pcr - p.previous_pcr
      else 0 in
    if not (is_valid p.previous_pcr)
    then some (record {
      start_ts =
          if drain_all
          then clock_time_none
          else if ltb pending_diff newest.pts
          then newest.pts - pending_diff
          else newest.pts;
      pcr_diff = pending_diff;
      pcr_bytes = pcr_bytes;
    })
    else if drain_all
    then some (record { start_ts = p.previous_pcr; pcr_diff = pending_diff; pcr_bytes = pcr_bytes })
    else if ltb observed p.smoothing_latency
    then none
    else some (record { start_ts = p.previous_pcr; pcr_diff = observed; pcr_bytes = pcr_bytes })

abbrev pub stamp : ℕ → ℕ → TimedBuffer → TimedBuffer
stamp out_ts ts_offset b = record b { pts = add64 out_ts ts_offset; dts = add64 out_ts ts_offset }

abbrev pub hold : TimedBuffer → TsParser → TsParser
hold b p = record p {
  pending_buffers = b ∷ p.pending_buffers;
  bytes_since_pcr = (p.bytes_since_pcr + length b.bytes) % 2 ^ 32;
}

abbrev pub is_segment : EventType → Bool
is_segment segment = true
is_segment eos = false
is_segment other = false

module _ (scale : ℕ → ℕ → ℕ → ℕ) where
  -- The time after some of the bytes.
  unfoldable pub paced_time : Pace → ℕ → ℕ
  paced_time pace pos =
      if is_valid pace.start_ts
        && is_valid pace.pcr_diff
        && not (pace.pcr_bytes == 0)
        && not (pos == 0)
      then add64 pace.start_ts (scale pace.pcr_diff pos pace.pcr_bytes)
      else pace.start_ts

  module _ (downstream : Downstream) where
    open downstream use {Out, Flow, ok, is_ok, push, start_stream, forward_event}

    -- Nothing is handed on after an error.
    abbrev push_if_ok : TimedBuffer → Flow → Out → Flow × Out
    push_if_ok b flow out = if is_ok flow then push b out else (flow, out)

    unfoldable pub push_paced : Pace → ℕ → ℕ → List TimedBuffer → Flow → Out → Flow × Out
    push_paced pace ts_offset pos [] flow out = (flow, out)
    push_paced pace ts_offset pos (b ∷ buffers) flow out =
        let (result, after) = push_if_ok (stamp (paced_time pace pos) ts_offset b) flow out in
        push_paced pace ts_offset ((pos + length b.bytes) % 2 ^ 64) buffers result after

    -- Without a pace the PCRs are too close.
    abbrev pub drain_paced :
        Option Pace → Bool → TimedBuffer → List TimedBuffer → TsParser → Out → Flow × TsParser × Out
    drain_paced none drain_all newest older p out =
        (ok, record p { current_pcr = clock_time_none }, out)
    drain_paced (some pace) drain_all newest older p out =
        let leaving = if drain_all then newest ∷ older else older in
        let (flow, after) = push_paced pace p.ts_offset 0 (oldest_first leaving) ok out in
        (
          flow,
          record p {
            current_pcr = clock_time_none;
            pending_buffers = if drain_all then [] else newest ∷ [];
            bytes_since_pcr = length newest.bytes % 2 ^ 32;
            previous_pcr = p.current_pcr;
          },
          after,
        )

    abbrev pub drain_list : List TimedBuffer → Bool → TsParser → Out → Flow × TsParser × Out
    drain_list [] drain_all p out = (ok, p, out)
    drain_list (newest ∷ older) drain_all p out =
        if not (is_valid p.current_pcr) && not drain_all
        then (ok, p, out)
        else drain_paced (pace_of drain_all newest p) drain_all newest older p out

    unfoldable pub drain_pending_buffers : Bool → TsParser → Out → Flow × TsParser × Out
    drain_pending_buffers drain_all p out = drain_list p.pending_buffers drain_all p out

    -- The stream starts once there is a packet size.
    unfoldable pub prepare_src_pad : ℕ → TsParser → Out → Bool × TsParser × Out
    prepare_src_pad packet_size p out =
        if not p.first
        then (true, p, out)
        else if packet_size == 0
        then (false, p, out)
        else (true, record p { first = false }, start_stream packet_size p.set_timestamps out)

    -- What follows the pending buffers: the buffer itself, if it is not one of them.
    abbrev pub hand_on : Bool → TimedBuffer → Flow × TsParser × Out → Flow × TsParser × Out
    hand_on held b (flow, p, out) =
        let (result, after) = push b out in
        if not (is_ok flow) || held then (flow, p, out) else (result, p, after)

    abbrev pub after_start : Bool → TimedBuffer → Bool × TsParser × Out → Flow × TsParser × Out
    after_start held b (false, p, out) = (ok, p, out)
    after_start held b (true, p, out) =
        hand_on held b (drain_pending_buffers (not p.set_timestamps) p out)

    unfoldable pub input_done : ℕ → TimedBuffer → TsParser → Out → Flow × TsParser × Out
    input_done packet_size b p out =
        let held = p.set_timestamps || p.first in
        after_start held b (prepare_src_pad packet_size (if held then hold b p else p) out)

    abbrev pub prepared : Bool × TsParser × Out → TsParser × Out
    prepared (ready, p, out) = (p, out)

    abbrev pub drained : Flow × TsParser × Out → TsParser × Out
    drained (flow, p, out) = (p, out)

    -- The segment is sent when the stream starts.
    abbrev pub handle_event : EventType → TsParser × Out → TsParser × Out
    handle_event segment (p, out) = (record p { ts_offset = 0 }, forward_event segment out)
    handle_event eos (p, out) =
        let (after, result) = drained (drain_pending_buffers true p out) in
        (after, forward_event eos result)
    handle_event other (p, out) = (p, forward_event other out)

    unfoldable pub push_event : ℕ → EventType → TsParser → Out → TsParser × Out
    push_event packet_size event p out =
        if p.first && is_segment event
        then (p, out)
        else handle_event event (prepared (prepare_src_pad packet_size p out))
