-- ===== src/Ts/Window.antt =====
-- gst/gst-demux/mpegtspacketizer.c: the window of mapped bytes over the adapter, and the search for
-- packets in it. `fault` is a read outside the mapped bytes.
use helia.Common.{
  ℕ, zero, suc, ◌+◌, ◌-◌, ◌*◌, ◌%◌, ◌^◌, ◌≤◌, ◌≡◌, ◌⊎◌, Bool, true, false, ◌&&◌, Option, none, some,
  List, [], ◌∷◌, ◌++◌, ltb, leb, ◌==◌, if◌then◌else◌, length, take, drop,
}
use helia.Parsing.{Parse, parsed, fault, ◌>>=◌, byte}
pub mod Next
pub mod Invariant
pub mod Search
pub mod Packets
pub mod Sizing
pub mod Taking
pub mod Delivery
pub mod Processing
pub mod Feeding

-- GstAdapter, a queue of bytes of GStreamer, by what its documentation says. `map` may fail, as the
-- code provides for.
pub record Adapter (Queue : Type 0) : Type 0 where
  pub contents : Queue → List ℕ
  pub push : Queue → List ℕ → Queue
  pub flush : Queue → ℕ → Queue
  pub available : Queue → ℕ
  pub map : Queue → ℕ → Option (List ℕ)
  pub contents-push : (q : Queue) (bytes : List ℕ) → contents (push q bytes) ≡ contents q ++ bytes
  pub contents-flush :
      (q : Queue) (n : ℕ) → n ≤ length (contents q) → contents (flush q n) ≡ drop n (contents q)
  pub clear : Queue → Queue
  pub contents-clear : (q : Queue) → contents (clear q) ≡ []
  pub available_lem : (q : Queue) → available q ≡ length (contents q)
  pub map_lem : (q : Queue) (n : ℕ) → (map q n ≡ none) ⊎ (map q n ≡ some (take n (contents q)))

-- The fields of MpegTSPacketizer2 for the search. `none` is NULL.
pub record Window (Queue : Type 0) : Type 0 where
  pub queue : Queue
  pub map_data : Option (List ℕ)
  pub map_offset : ℕ
  pub map_size : ℕ
  pub packet_size : ℕ
  pub need_sync : Bool
  pub offset : ℕ
  pub empty : Bool
  pub last_in_time : ℕ

abbrev pub normal_packetsize : ℕ
normal_packetsize = 188

abbrev pub m2ts_packetsize : ℕ
m2ts_packetsize = 192

abbrev pub dvb_asi_packetsize : ℕ
dvb_asi_packetsize = 204

abbrev pub atsc_packetsize : ℕ
atsc_packetsize = 208

abbrev pub max_packetsize : ℕ
max_packetsize = atsc_packetsize

abbrev pub packet_sync_byte : ℕ
packet_sync_byte = 0x47

-- GST_CLOCK_TIME_NONE.
abbrev pub clock_time_none : ℕ
clock_time_none = 2 ^ 64 - 1

-- gsize arithmetic.
abbrev pub sub64 : ℕ → ℕ → ℕ
sub64 a b = (a + 2 ^ 64 - b) % 2 ^ 64

-- A read of the mapped bytes; through NULL it is a fault.
abbrev pub mapped_bytes : Option (List ℕ) → List ℕ
mapped_bytes none = []
mapped_bytes (some bytes) = bytes

-- Is a pointer not NULL?
abbrev pub is_mapped : Option (List ℕ) → Bool
is_mapped none = false
is_mapped (some bytes) = true

-- `n` sync bytes, `packet_size` apart, from an index on; the first other byte ends the test.
unfoldable pub all_sync : List ℕ → ℕ → ℕ → ℕ → Parse Bool
all_sync bytes packet_size zero i = parsed true
all_sync bytes packet_size (suc n) i = do
  b ← byte bytes i
  let rest = all_sync bytes packet_size n (i + packet_size)
  if b == packet_sync_byte then rest else parsed false

-- The loop over `psizes`: the first size for which three more sync bytes follow, or 0.
unfoldable pub fitting_size : List ℕ → ℕ → List ℕ → Parse ℕ
fitting_size bytes i [] = parsed 0
fitting_size bytes i (packet_size ∷ sizes) = do
  fits ← all_sync bytes packet_size 3 (i + packet_size)
  let rest = fitting_size bytes i sizes
  if fits then parsed packet_size else rest

abbrev pub psizes : List ℕ
psizes = normal_packetsize ∷ m2ts_packetsize ∷ dvb_asi_packetsize ∷ atsc_packetsize ∷ []

-- The loop over `i`, with the rounds that are left: where it ends, and the size that was found.
unfoldable pub discover_loop : List ℕ → ℕ → ℕ → Parse (ℕ × ℕ)
discover_loop bytes zero i = parsed (i, 0)
discover_loop bytes (suc rounds) i = do
  b ← byte bytes i
  let rest = discover_loop bytes rounds (i + 1)
  if b == packet_sync_byte
      then (do
        packet_size ← fitting_size bytes i psizes
        if packet_size == 0 then rest else parsed (i, packet_size))
      else rest

-- The loop of `mpegts_packetizer_sync`: where it ends, and whether three sync bytes were found.
unfoldable pub sync_loop : List ℕ → ℕ → ℕ → ℕ → Parse (ℕ × Bool)
sync_loop bytes packet_size zero i = parsed (i, false)
sync_loop bytes packet_size (suc rounds) i = do
  here ← all_sync bytes packet_size 3 i
  let rest = sync_loop bytes packet_size rounds (i + 1)
  if here then parsed (i, true) else rest

-- Where the sync byte stands in a packet.
abbrev pub sync_offset : ℕ → ℕ
sync_offset packet_size = if packet_size == m2ts_packetsize then 4 else 0

module _ {Queue : Type 0} (g : Adapter Queue) where
  -- mpegts_packetizer_push; `offset` and `ts` are the buffer's, with no time as clock_time_none.
  unfoldable pub push_buffer : List ℕ → ℕ → ℕ → Window Queue → Window Queue
  push_buffer buffer offset ts w = record w {
    queue = g.push w.queue buffer;
    offset = if w.empty then offset else w.offset;
    empty = if w.empty then false else w.empty;
    last_in_time = if ts == clock_time_none then w.last_in_time else ts;
  }

  unfoldable pub flush_bytes : ℕ → Window Queue → Window Queue
  flush_bytes size w = record w {
    queue = if ltb 0 size then g.flush w.queue size else w.queue;
    map_data = none;
    map_size = 0;
    map_offset = 0;
  }

  unfoldable pub map_bytes : ℕ → Window Queue → Window Queue × Bool
  unfolding flush_bytes
  map_bytes size w =
      if leb size (sub64 w.map_size w.map_offset)
      then (w, true)
      else (let flushed = flush_bytes w.map_offset w in
          let available = g.available flushed.queue in
          if ltb available size then (flushed, false) else elim (g.map flushed.queue available) [
            | none ↦ (record flushed { map_data = none }, false)
            | some bytes ↦ (
              record flushed { map_data = some bytes; map_size = available; map_offset = 0 },
              true,
            )
          ])

  -- The bytes from the map's offset on.
  abbrev pub window_bytes : Window Queue → List ℕ
  window_bytes w = drop w.map_offset (mapped_bytes w.map_data)

  -- mpegts_try_discover_packet_size, after the bytes are mapped.
  unfoldable pub discover_mapped : Window Queue → Parse (Window Queue × Bool)
  discover_mapped w = do
    let size = sub64 w.map_size w.map_offset
    (i, packet_size) ← discover_loop (window_bytes w) (size - 3 * max_packetsize) 0
    let found = record w {
      packet_size = if packet_size == 0 then w.packet_size else packet_size;
      map_offset = w.map_offset + i;
    }
    if found.packet_size == 0
        then parsed (flush_bytes found.map_offset found, false)
        else if found.packet_size == m2ts_packetsize && leb 4 found.map_offset
        then parsed (record found { map_offset = found.map_offset - 4 }, true)
        else parsed (found, true)

  unfoldable pub try_discover_packet_size : Window Queue → Parse (Window Queue × Bool)
  try_discover_packet_size w =
      let (mapped, there) = map_bytes (4 * max_packetsize) w in
      if there then discover_mapped mapped else parsed (mapped, false)

  -- mpegts_packetizer_sync, after the bytes are mapped.
  unfoldable pub sync_mapped : Window Queue → Parse (Window Queue × Bool)
  sync_mapped w = do
    let size = sub64 w.map_size w.map_offset
    let start = sync_offset w.packet_size
    (i, found) ← sync_loop (window_bytes w) w.packet_size (size - (start + 2 * w.packet_size)) start
    let moved = record w { map_offset = w.map_offset + (i - start) }
    if found then parsed (moved, true) else parsed (flush_bytes moved.map_offset moved, false)

  unfoldable pub sync : Window Queue → Parse (Window Queue × Bool)
  sync w =
      let (mapped, there) = map_bytes (3 * w.packet_size) w in
      if there then sync_mapped mapped else parsed (mapped, false)
