-- ===== src/Tests/Window.antt =====
-- The window of the packetizer over an adapter that is a list of bytes, at concrete inputs.
use helia.Common.{
  ℕ, ◌≡◌, ◌≢◌, refl, inl, inr, false, none, some, List, [], ◌∷◌, ◌++◌, drop, take, length, All,
  IsByte, arith, replicate,
}
use helia.Parsing.{parsed, fault}
use helia.Parsing.Gives.{Gives}
use helia.Ts.Packet.{disabled}
use helia.Ts.Packet.Layout.{payload_packet}
use helia.Ts.Window.{Adapter, Window, flush_bytes, map_bytes, sync_loop}
use helia.Ts.Window.Search.{Searched, sync_loop-Searched}
use helia.Ts.Window.Sizing.{Sound}
use helia.Ts.Window.Delivery.{Delivered, next_packet-Delivered}
use helia.Ts.Window.Processing.{Processed, process_next_packet-Processed}
use helia.Ts.Window.Feeding.{found_packet_safe}
use helia.Ts.Window.Next.{
  found, check_sync, take_packet, next_loop, next_packet, found_packet, process_next_packet,
}

abbrev list_adapter : Adapter (List ℕ)
list_adapter = record {
  contents = λ q. q;
  push = λ q bytes. q ++ bytes;
  flush = λ q n. drop n q;
  available = λ q. length q;
  map = λ q n. some (take n q);
  contents-push = λ q bytes. refl;
  contents-flush = λ q n h. refl;
  clear = λ q. [];
  contents-clear = λ q. refl;
  available_lem = λ q. refl;
  map_lem = λ q n. inr refl;
}

abbrev packet : List ℕ
packet = payload_packet 0 0x100 0 5 (replicate 184 7)

-- Before anything was mapped.
abbrev window_of : ℕ → List ℕ → Window (List ℕ)
window_of packet_size bytes = record {
  queue = bytes;
  map_data = none;
  map_offset = 0;
  map_size = 0;
  packet_size = packet_size;
  need_sync = false;
  offset = 1000;
  empty = false;
  last_in_time = 0;
}

abbrev fresh : Window (List ℕ)
fresh = window_of 0 (replicate 900 0x47)

abbrev one_packet : Window (List ℕ)
one_packet = window_of 188 packet

fresh-Sound : Sound list_adapter fresh
fresh-Sound = record {
  mapped = record { bytes = refl; held = omega arith; within = omega arith; short = omega arith };
  sized = inl (refl, refl);
}

one_packet-Sound : Sound list_adapter one_packet
unfolding payload_packet
one_packet-Sound = record {
  mapped = record { bytes = refl; held = omega arith; within = omega arith; short = omega arith };
  sized = inr (inl refl);
}

abbrev after_packet : Window (List ℕ)
after_packet = record one_packet { map_data = some packet; map_size = 188; offset = 1188 }

one_packet_found : next_packet list_adapter 2 one_packet ≡ parsed (after_packet, found 0 1000)
unfolding next_packet next_loop take_packet check_sync map_bytes flush_bytes payload_packet
one_packet_found = refl

packet-IsByte : All IsByte packet
unfolding payload_packet
packet-IsByte = ground arith

next_packet-Delivered_example :
    Gives (Delivered list_adapter fresh) (next_packet list_adapter 2 fresh)
next_packet-Delivered_example = next_packet-Delivered list_adapter 0 fresh fresh-Sound

process_next_packet-Processed_example :
    Gives (Processed list_adapter one_packet) (process_next_packet list_adapter 2 one_packet)
process_next_packet-Processed_example =
    process_next_packet-Processed list_adapter 0 one_packet one_packet-Sound

found_packet_safe_example : found_packet list_adapter disabled after_packet 0 ≢ fault
found_packet_safe_example =
    found_packet_safe list_adapter 0 one_packet after_packet 0 1000 one_packet-Sound packet-IsByte
      one_packet_found

sync_loop-Searched_example :
    Gives (Searched (0 ∷ replicate 30 0x47) 10 0 5) (sync_loop (0 ∷ replicate 30 0x47) 10 5 0)
sync_loop-Searched_example = sync_loop-Searched (0 ∷ replicate 30 0x47) 10 5 0 (omega arith)
