-- ===== src/Ts/Window/Feeding.antt =====
-- gst/gst-demux/mpegtspacketizer.c: bytes that come in, and the packets that are parsed from them.
use helia.Common.{
  ℕ, zero, suc, ◌+◌, ◌^◌, ◌≤◌, ◌<◌, ◌≡◌, ◌≢◌, refl, sym, ap, ◌∙◌, List, [], ◌∷◌, ◌++◌, drop, take,
  length, length-drop, length-append, arith, All, IsByte,
}
use helia.Parsing.{parsed, fault}
use helia.Parsing.Gives.{Gives-result}
use helia.Ts.Packet.{disabled}
use helia.Ts.Packet.Bounds.Whole.{parse_packet_safe}
use helia.Ts.Window.{Adapter, Window, mapped_bytes, sync_offset, push_buffer}
use helia.Ts.Window.Invariant.{drop-drop, pending, length-Mapped}
use helia.Ts.Window.Packets.{sync_offset-IsPacketSize}
use helia.Ts.Window.Sizing.{Sound}
use helia.Ts.Window.Taking.{Found}
use helia.Ts.Window.Delivery.{Delivered, next_packet-Delivered}
use helia.Ts.Window.Next.{found, next_packet, found_packet}

take-append : (n : ℕ) (xs ys : List ℕ) → n ≤ length xs → take n (xs ++ ys) ≡ take n xs
take-append zero xs ys h = refl
take-append (suc n) [] ys h = absurd (omega arith)
take-append (suc n) (x ∷ xs) ys h = ap (λ (zs : List ℕ). x ∷ zs) (take-append n xs ys (omega arith))

drop-append : (n : ℕ) (xs ys : List ℕ) → n ≤ length xs → drop n (xs ++ ys) ≡ drop n xs ++ ys
drop-append zero xs ys h = refl
drop-append (suc n) [] ys h = absurd (omega arith)
drop-append (suc n) (x ∷ xs) ys h = drop-append n xs ys (omega arith)

All-drop : (n : ℕ) (xs : List ℕ) → All IsByte xs → All IsByte (drop n xs)
All-drop zero xs h = h
All-drop (suc n) [] h = h
All-drop (suc n) (x ∷ xs) h = All-drop n xs h.1

All-take : (n : ℕ) (xs : List ℕ) → All IsByte xs → All IsByte (take n xs)
All-take zero xs h = tt
All-take (suc n) [] h = h
All-take (suc n) (x ∷ xs) h = (h.0, All-take n xs h.1)

All-drop-take : (m n : ℕ) (xs : List ℕ) → All IsByte (drop m xs) → All IsByte (drop m (take n xs))
All-drop-take zero n xs h = All-take n xs h
All-drop-take (suc m) zero xs h = tt
All-drop-take (suc m) (suc n) [] h = tt
All-drop-take (suc m) (suc n) (x ∷ xs) h = All-drop-take m n xs h

module _ {Queue : Type 0} (g : Adapter Queue) where
  -- Pushing a buffer keeps a window sound and appends its bytes to those that are pending.
  pub push_buffer-Sound :
      (buffer : List ℕ) (offset ts : ℕ) (w : Window Queue)
      → length (g.contents w.queue) + length buffer < 2 ^ 63
      → Sound g w
      → Sound g (push_buffer g buffer offset ts w)
        × (pending g (push_buffer g buffer offset ts w) ≡ pending g w ++ buffer)
  unfolding push_buffer
  push_buffer-Sound buffer offset ts w room s =
      let all = g.contents-push w.queue buffer in
      let v = s.mapped in
      let longer : length (g.contents (g.push w.queue buffer))
          ≡ length (g.contents w.queue) + length buffer =
        ap length all ∙ length-append (g.contents w.queue) buffer in
      let bytes : mapped_bytes w.map_data ≡ take w.map_size (g.contents (g.push w.queue buffer)) =
        v.bytes
        ∙ sym (take-append w.map_size (g.contents w.queue) buffer v.held)
        ∙ ap (take w.map_size) (sym all) in
      let rest : drop w.map_offset (g.contents (g.push w.queue buffer)) ≡ pending g w ++ buffer =
        ap (drop w.map_offset) all
        ∙ drop-append w.map_offset (g.contents w.queue) buffer (omega (arith, v.within, v.held)) in
      (
        record {
          mapped = record {
            bytes = bytes;
            held = omega (arith, longer, v.held);
            within = v.within;
            short = omega (arith, longer, room);
          };
          sized = s.sized;
        },
        rest,
      )

  -- A packet that `mpegts_packetizer_next_packet` finds in a sound window of bytes is parsed without
  -- reading outside the mapped bytes, in a build that does not log.
  pub found_packet_safe :
      (fuel : ℕ) (w v : Window Queue) (place offset : ℕ)
      → Sound g w
      → All IsByte (pending g w)
      → next_packet g (suc (suc fuel)) w ≡ parsed (v, found place offset)
      → found_packet g disabled v place ≢ fault
  unfolding found_packet
  found_packet_safe fuel w v place offset s bytes e =
      let d : Delivered g w (v, found place offset) =
        Gives-result _ (v, found place offset) (next_packet-Delivered g fuel w s) e in
      let f : Found g (record w { packet_size = v.packet_size }) v place offset = d.taken in
      let later : All IsByte (drop v.map_offset (g.contents v.queue)) =
        rw (f.skips.skipped) (All-drop f.skips.count (pending g w) bytes) in
      let later_still : All IsByte (drop place (g.contents v.queue)) =
        rw (f.place_lem, drop-drop v.map_offset (sync_offset v.packet_size) (g.contents v.queue))
          (All-drop (sync_offset v.packet_size) (pending g v) later) in
      let room = sync_offset-IsPacketSize v.packet_size f.is_size in
      parse_packet_safe (drop place (mapped_bytes v.map_data)) disabled 188
        (rw (f.skips.mapped.bytes)
          (All-drop-take place v.map_size (g.contents v.queue) later_still))
        (omega (
          arith,
          length-drop place (mapped_bytes v.map_data),
          length-Mapped g v f.skips.mapped,
          f.place_lem,
          f.at_packet.fits,
          room,
        ))
        (omega arith)
