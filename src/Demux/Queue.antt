-- ===== src/Demux/Queue.antt =====
-- gst/gst-demux/tsdemux.c: collecting the payloads of a stream's packets into one buffer. `fault` is an
-- access outside a memory, a failed assertion, or a loop that does not end.
use helia.Common.{
  ℕ, zero, suc, ◌+◌, ◌-◌, ◌*◌, ◌%◌, ◌^◌, Bool, true, false, not, ◌&&◌, ◌||◌, Option, none, some,
  List, [], ◌++◌, ltb, leb, ◌==◌, if◌then◌else◌, length, take, drop, lookup, insert,
}
use helia.Parsing.{Parse, parsed, bad, need_more, fault, ◌>>=◌}
use helia.Pes.Header.{PesHeader, no_timestamp}
use helia.Pes.Extension.{parse_pes_header}
use helia.Ts.Window.{clock_time_none}
use helia.Demux.{
  PendingPacketState, empty, header, buffer, discont, TsDemuxStream, StreamClock, is_empty_state,
}
use helia.Demux.Pending.{Streams, record_pts, record_dts, check_pending_buffers}

-- The part of a packet that the streams see: its payload is the first `size` bytes of what may be read.
pub record StreamPacket : Type 0 where
  pub payload_unit_start_indicator : Bool
  pub continuity_counter : ℕ
  pub payload : List ℕ
  pub size : ℕ

abbrev pub continuity_unset : ℕ
continuity_unset = 255

abbrev pub max_continuity : ℕ
max_continuity = 15

-- gst_ts_demux_stream_flush.
unfoldable pub stream_flush : Bool → TsDemuxStream → TsDemuxStream
stream_flush hard s = record s {
  bytes = none;
  state = empty;
  expected_size = 0;
  allocated_size = 0;
  current_size = 0;
  discont = true;
  pts = clock_time_none;
  dts = clock_time_none;
  raw_pts = no_timestamp;
  raw_dts = no_timestamp;
  pending_ts = true;
  continuity_counter = continuity_unset;
  pending = [];
  first_pts = if hard then clock_time_none else s.first_pts;
  need_newsegment = hard || s.need_newsegment;
}

-- A packet out of order drops what is collected.
unfoldable pub check_continuity : ℕ → TsDemuxStream → TsDemuxStream
check_continuity cc s =
    let expected =
      s.continuity_counter == continuity_unset
      || cc == s.continuity_counter + 1
      || s.continuity_counter == max_continuity && cc == 0 in
    record s {
      continuity_counter = cc;
      state = if expected || is_empty_state s.state then s.state else discont;
    }

-- A new buffer starts with the start of a unit.
unfoldable pub start_unit : Bool → TsDemuxStream → TsDemuxStream
start_unit starts s = record s {
  state = if is_empty_state s.state then (if starts then header else discont) else s.state;
}

-- The size doubles until it is enough. A guint of 32 bits is 0 after 32 rounds, and stays so.
unfoldable pub grow : ℕ → ℕ → ℕ → Parse ℕ
grow zero allocated wanted = fault
grow (suc rounds) allocated wanted =
    let double = allocated * 2 % 2 ^ 32 in
    let rest = grow rounds double wanted in if ltb double wanted then rest else parsed double

-- The memory that a stream needs to take more bytes.
unfoldable pub reserve : ℕ → TsDemuxStream → Parse ℕ
reserve size s =
    let wanted = (s.current_size + size) % 2 ^ 32 in
    let grown = grow 33 s.allocated_size wanted in
    if ltb s.allocated_size wanted then grown else parsed s.allocated_size

-- memcpy to the bytes behind those that were written, within an allocated memory.
abbrev pub copy_behind : ℕ → ℕ → List ℕ → Option (List ℕ) → Parse (List ℕ)
copy_behind allocated current_size payload none = fault
copy_behind allocated current_size payload (some bytes) =
    if length bytes == current_size && leb (current_size + length payload) allocated
    then parsed (bytes ++ payload)
    else fault

-- A read of some bytes of a memory.
abbrev pub read_bytes : ℕ → ℕ → List ℕ → Parse (List ℕ)
read_bytes start size memory =
    if leb (start + size) (length memory) then parsed (take size (drop start memory)) else fault

unfoldable pub append_data : StreamPacket → TsDemuxStream → Parse TsDemuxStream
append_data packet s = do
  allocated ← reserve packet.size s
  payload ← read_bytes 0 packet.size packet.payload
  bytes ← copy_behind allocated s.current_size payload s.bytes
  parsed (record s {
    allocated_size = allocated;
    bytes = some bytes;
    current_size = (s.current_size + packet.size) % 2 ^ 32;
  })

unfoldable pub drop_data : TsDemuxStream → TsDemuxStream
drop_data s = record s { bytes = none; continuity_counter = continuity_unset }

-- The bytes behind the header; the length of the header's packet says how many are to come.
abbrev pub expected_of : ℕ → ℕ → ℕ
expected_of packet_length header_size =
    if ltb header_size packet_length then packet_length - header_size else 0

abbrev pub is_allocated : Option (List ℕ) → Bool
is_allocated none = false
is_allocated (some bytes) = true

unfoldable pub start_buffer : PesHeader → StreamPacket → TsDemuxStream → Parse TsDemuxStream
start_buffer h packet s = do
  let expected = expected_of h.packet_length h.header_size
  let rest = (packet.size + 2 ^ 32 - h.header_size) % 2 ^ 32
  let at_least = if expected == 0 then 8192 else expected
  payload ← read_bytes h.header_size rest packet.payload
  if is_allocated s.bytes
      then fault
      else parsed (record s {
        expected_size = expected;
        allocated_size = if ltb at_least rest then rest else at_least;
        bytes = some payload;
        current_size = rest;
        state = buffer;
      })

abbrev pub stop : TsDemuxStream → TsDemuxStream
stop s = record s { state = discont }

-- A substream that is wanted, if one is.
abbrev pub is_wanted : ℕ → PesHeader → Bool
is_wanted target h = target == 0 || h.stream_id_extension == target

module _ (clock : StreamClock) where
  open clock use {Time}

  -- What follows the timestamps: the pending buffers of all streams, or the first time of this one.
  abbrev pub settle_times : ℕ → TsDemuxStream → Streams → Time → Parse (Streams × Time)
  settle_times pid s streams time =
      let stored = insert pid s streams in
      let checked = (do
        (done, after, settled) ← check_pending_buffers clock stored time
        parsed (after, settled)) in
      let first = if s.pts == clock_time_none then s.dts else s.pts in
      if s.pending_ts && (not (s.pts == clock_time_none) || not (s.dts == clock_time_none))
      then checked
      else if s.first_pts == clock_time_none
      then parsed (insert pid (record s { first_pts = first }) streams, time)
      else parsed (stored, time)

  -- The stream with the PID after a step of its own.
  abbrev pub change_stream :
      ℕ
      → (TsDemuxStream → Parse TsDemuxStream)
      → Option TsDemuxStream
      → Streams
      → Time
      → Parse (Streams × Time)
  change_stream pid step none streams time = fault
  change_stream pid step (some s) streams time = do
    after ← step s
    parsed (insert pid after streams, time)

  -- A header that was parsed.
  unfoldable pub take_header :
      ℕ → PesHeader → StreamPacket → TsDemuxStream → Streams → Time → Parse (Streams × Time)
  take_header pid h packet s streams time = do
    (with_dts, one) ← record_dts clock h.dts s time
    (with_pts, two) ← record_pts clock h.pts with_dts one
    (settled, three) ← settle_times pid with_pts streams two
    change_stream pid (start_buffer h packet) (lookup pid settled) settled three

  -- gst_ts_demux_parse_pes_header.
  abbrev pub header_result :
      Parse PesHeader → ℕ → StreamPacket → TsDemuxStream → Streams → Time → Parse (Streams × Time)
  header_result fault pid packet s streams time = fault
  header_result need_more pid packet s streams time = parsed (insert pid (stop s) streams, time)
  header_result bad pid packet s streams time = parsed (insert pid (stop s) streams, time)
  header_result (parsed h) pid packet s streams time =
      if is_wanted s.target_pes_substream h
      then take_header pid h packet s streams time
      else parsed (insert pid (stop s) streams, time)

  abbrev pub queue_in :
      PendingPacketState
      → ℕ
      → StreamPacket
      → TsDemuxStream
      → Streams
      → Time
      → Parse (Streams × Time)
  queue_in empty pid packet s streams time = parsed (insert pid s streams, time)
  queue_in header pid packet s streams time =
      header_result (parse_pes_header packet.payload packet.size) pid packet s streams time
  queue_in buffer pid packet s streams time = do
    after ← append_data packet s
    parsed (insert pid after streams, time)
  queue_in discont pid packet s streams time = parsed (insert pid (drop_data s) streams, time)

  unfoldable pub queue_data :
      ℕ → StreamPacket → TsDemuxStream → Streams → Time → Parse (Streams × Time)
  queue_data pid packet s streams time =
      let started =
        start_unit packet.payload_unit_start_indicator
          (check_continuity packet.continuity_counter s) in
      queue_in started.state pid packet started streams time
