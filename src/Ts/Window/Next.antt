-- ===== src/Ts/Window/Next.antt =====
-- gst/gst-demux/mpegtspacketizer.c: taking packets off the window.
use helia.Common.{
  ℕ, zero, suc, ◌+◌, ◌%◌, ◌^◌, Bool, true, false, none, ltb, leb, ◌==◌, if◌then◌else◌, drop,
}
use helia.Parsing.{Parse, parsed, ◌>>=◌, byte}
use helia.Ts.Packet.{Log, TsPacket, parse_packet}
use helia.Ts.Window.{
  Adapter, Window, packet_sync_byte, sync_offset, clock_time_none, sub64, mapped_bytes, is_mapped,
  flush_bytes, map_bytes, try_discover_packet_size, sync,
}

-- How `mpegts_packetizer_next_packet` ends: without a packet, or with one that starts at a position
-- of the mapped bytes and has an offset. `spinning` is no behaviour of the code: the loop ran out of
-- fuel.
pub data Next : Type 0 where
  more spinning : Next
  found : ℕ → ℕ → Next

module _ {Queue : Type 0} (g : Adapter Queue) where
  -- The tests of a round once the bytes of a packet are mapped; `again` is the next round.
  unfoldable pub check_sync :
      (Window Queue → Parse (Window Queue × Next)) → Window Queue → Parse (Window Queue × Next)
  check_sync again w = do
    let start = w.map_offset + sync_offset w.packet_size
    b ← byte (mapped_bytes w.map_data) start
    if b == packet_sync_byte
        then parsed
            (record w { offset = (w.offset + w.packet_size) % 2 ^ 64 }, found start w.offset)
        else again (record w { need_sync = true })

  -- A round of the loop after `need_sync` was seen to.
  unfoldable pub take_packet :
      (Window Queue → Parse (Window Queue × Next)) → Window Queue → Parse (Window Queue × Next)
  take_packet again w =
      let (mapped, enough) = map_bytes g w.packet_size w in
      if enough then check_sync again mapped else parsed (mapped, more)

  -- `while (1)`.
  unfoldable pub next_loop : ℕ → Window Queue → Parse (Window Queue × Next)
  next_loop zero w = parsed (w, spinning)
  next_loop (suc fuel) w =
      if w.need_sync
      then (do
        (synced, there) ← sync g w
        if there
            then take_packet (next_loop fuel) (record synced { need_sync = false })
            else parsed (synced, more))
      else take_packet (next_loop fuel) w

  unfoldable pub next_packet : ℕ → Window Queue → Parse (Window Queue × Next)
  next_packet fuel w =
      if w.packet_size == 0
      then (do
        (sized, there) ← try_discover_packet_size g w
        if there then next_loop fuel sized else parsed (sized, more))
      else next_loop fuel w

  -- The packet that `next_packet` found.
  unfoldable pub found_packet : Log → Window Queue → ℕ → Parse TsPacket
  found_packet log w start = parse_packet (drop start (mapped_bytes w.map_data)) log 188

  -- The packet size is kept in a guint8 here.
  unfoldable pub clear_packet : Window Queue → Window Queue
  clear_packet w =
      if is_mapped w.map_data
      then (let packet_size = w.packet_size % 256 in
          let moved = record w { map_offset = w.map_offset + packet_size } in
          if ltb (sub64 moved.map_size moved.map_offset) packet_size
          then flush_bytes g moved.map_offset moved
          else moved)
      else w

  -- Whatever the parser says of a packet that was found, it is cleared.
  abbrev pub clear_found : Window Queue → Next → Window Queue
  clear_found w more = w
  clear_found w spinning = w
  clear_found w (found start offset) = clear_packet w

  unfoldable pub process_next_packet : ℕ → Window Queue → Parse (Window Queue × Next)
  process_next_packet fuel w = do
    (after, next) ← next_packet fuel w
    parsed (clear_found after next, next)

  unfoldable pub has_packets : Window Queue → Parse (Window Queue × Bool)
  has_packets w =
      if w.packet_size == 0
      then (do
        (sized, there) ← try_discover_packet_size g w
        if there
            then parsed (sized, leb sized.packet_size (g.available sized.queue))
            else parsed (sized, false))
      else parsed (w, leb w.packet_size (g.available w.queue))

  -- What mpegts_packetizer_flush does to the window.
  unfoldable pub flush_window : Window Queue → Window Queue
  flush_window w = record w {
    queue = g.clear w.queue;
    offset = 0;
    empty = true;
    need_sync = false;
    map_data = none;
    map_size = 0;
    map_offset = 0;
    last_in_time = clock_time_none;
  }

  -- What mpegts_packetizer_clear does to it.
  unfoldable pub clear_window : Window Queue → Window Queue
  clear_window w = flush_window (record w { packet_size = 0 })
