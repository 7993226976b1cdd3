-- ===== src/Ts/Window/Processing.antt =====
-- gst/gst-demux/mpegtspacketizer.c: what taking a packet and clearing it does to a sound window.
use helia.Common.{
  ℕ, zero, suc, ◌+◌, ◌%◌, ◌^◌, ◌≤◌, ◌<◌, ◌≡◌, refl, sym, ap, ◌∙◌, subst, ◌⊎◌, inl, inr, true, some,
  List, [], ◌∷◌, drop, take, length, length-drop, get_elem?, ltb, if◌then◌else◌, arith, Bool-cases,
  Option-cases,
}
use helia.Parsing.Gives.{Gives, Gives-parsed, Gives-bind}
use helia.Ts.Window.{
  Adapter, Window, sub64, sync_offset, packet_sync_byte, mapped_bytes, is_mapped, flush_bytes,
}
use helia.Ts.Window.Invariant.{drop-drop, Mapped, pending, flush_bytes-Mapped, flush_bytes-pending}
use helia.Ts.Window.Packets.{
  IsPacketSize, sync_offset-IsPacketSize, AtPacket, advance-Skips, get_elem?-drop,
}
use helia.Ts.Window.Sizing.{Sound}
use helia.Ts.Window.Delivery.{Delivered, next_packet-Delivered}
use helia.Ts.Window.Next.{
  Next, more, spinning, found, clear_packet, clear_found, process_next_packet,
}

pub get_elem?-take : (n k : ℕ) (xs : List ℕ) → k < n → get_elem? (take n xs) k ≡ get_elem? xs k
get_elem?-take zero k xs h = absurd (omega arith)
get_elem?-take (suc n) k [] h = refl
get_elem?-take (suc n) zero (x ∷ xs) h = refl
get_elem?-take (suc n) (suc k) (x ∷ xs) h = get_elem?-take n k xs (omega arith)

module _ {Queue : Type 0} (g : Adapter Queue) where
  -- What clearing the packet at the start of the window leaves.
  record Clears (w v : Window Queue) : Type 0 where
    mapped : Mapped g v
    cleared : pending g v ≡ drop w.packet_size (pending g w)
    packet_size : v.packet_size ≡ w.packet_size
    offset : v.offset ≡ w.offset

  advance-Clears :
      (w : Window Queue) (n : ℕ)
      → n ≡ w.packet_size
      → Mapped g w
      → w.map_offset + n ≤ w.map_size
      → let moved = record w { map_offset = w.map_offset + n } in
        Clears w (
          if ltb (sub64 moved.map_size moved.map_offset) n
          then flush_bytes g moved.map_offset moved
          else moved)
  unfolding flush_bytes
  advance-Clears w n same v h =
      let moved = record w { map_offset = w.map_offset + n } in
      let mv : Mapped g moved = (advance-Skips g w n v h).mapped in
      let there : w.map_offset + n ≤ length (g.contents w.queue) = omega (arith, h, v.held) in
      let dropped : drop (w.map_offset + n) (g.contents w.queue)
          ≡ drop w.packet_size (pending g w) =
        drop-drop w.map_offset n (g.contents w.queue) ∙ ap (λ (k : ℕ). drop k (pending g w)) same in
      elim (Bool-cases (ltb (sub64 moved.map_size moved.map_offset) n)) [
        | inl e ↦ rw e (record {
          mapped = flush_bytes-Mapped g moved.map_offset moved mv there;
          cleared = flush_bytes-pending g moved.map_offset moved there ∙ dropped;
          packet_size = refl;
          offset = refl;
        })
        | inr e ↦
            rw e (record { mapped = mv; cleared = dropped; packet_size = refl; offset = refl })
      ]

  clear_packet-Clears :
      (w : Window Queue)
      → IsPacketSize w.packet_size
      → Mapped g w
      → AtPacket g w
      → Clears w (clear_packet g w)
  unfolding clear_packet
  clear_packet-Clears w p v a =
      let small : w.packet_size % 256 ≡ w.packet_size = omega (arith, p) in
      let there : is_mapped w.map_data ≡ true = elim (Option-cases w.map_data) [
        | inl e ↦ absurd (ground (arith, e, a.sync_byte))
        | inr (bytes, e) ↦ ground (arith, e)
      ] in
      rw there (advance-Clears w (w.packet_size % 256) small v (omega (arith, small, a.fits)))

  -- A packet was taken: some of the first bytes that were pending were skipped, the packet followed, with
  -- its sync byte, and what followed it is pending.
  pub record Took (w after : Window Queue) (count packet_size : ℕ) : Type 0 where
    pub sync_byte :
        get_elem? (pending g w) (count + sync_offset packet_size) ≡ some packet_sync_byte
    pub whole : count + packet_size ≤ length (pending g w)
    pub rest : pending g after ≡ drop (count + packet_size) (pending g w)
    pub offset : after.offset ≡ (w.offset + packet_size) % 2 ^ 64

  -- What processing the next packet of a window leaves.
  pub record Processed (w : Window Queue) (r : Window Queue × Next) : Type 0 where
    pub sound : Sound g (r.0)
    pub count : ℕ
    pub outcome :
        ((r.1 ≡ more) × (pending g (r.0) ≡ drop count (pending g w)) × (r.0.offset ≡ w.offset))
        ⊎ ((place : ℕ) × (r.1 ≡ found place w.offset) × Took w (r.0) count r.0.packet_size)

  -- A byte of the mapped ones is one of those that are pending.
  pending-Mapped :
      (w : Window Queue) (k : ℕ)
      → Mapped g w
      → w.map_offset + k < w.map_size
      → get_elem? (pending g w) k ≡ get_elem? (mapped_bytes w.map_data) (w.map_offset + k)
  pending-Mapped w k v h =
      get_elem?-drop w.map_offset k (g.contents w.queue)
      ∙ sym (get_elem?-take w.map_size (w.map_offset + k) (g.contents w.queue) h)
      ∙ ap (λ (bytes : List ℕ). get_elem? bytes (w.map_offset + k)) (sym v.bytes)

  clear_found-Processed :
      (w v : Window Queue) (next : Next)
      → Delivered g w (v, next)
      → Processed w (clear_found g v next, next)
  clear_found-Processed w v more d = record {
    sound = d.sound;
    count = d.taken.count;
    outcome = inl (refl, d.taken.skipped, d.taken.offset);
  }
  clear_found-Processed w v spinning d = absurd d.taken
  clear_found-Processed w v (found place from) d =
      let f = d.taken in
      let c = clear_packet-Clears v f.is_size d.sound.mapped f.at_packet in
      let n = f.skips.count in
      let start_byte : v.map_offset + sync_offset v.packet_size < v.map_size =
        omega (arith, f.at_packet.fits, sync_offset-IsPacketSize v.packet_size f.is_size) in
      let took : Took w (clear_packet g v) n v.packet_size = record {
        sync_byte =
            sym (get_elem?-drop n (sync_offset v.packet_size) (pending g w))
            ∙ ap (λ (bytes : List ℕ). get_elem? bytes (sync_offset v.packet_size))
                (sym f.skips.skipped)
            ∙ pending-Mapped v (sync_offset v.packet_size) d.sound.mapped start_byte
            ∙ f.at_packet.sync_byte;
        whole = omega (
          arith,
          length-drop n (pending g w),
          ap length f.skips.skipped,
          length-drop v.map_offset (g.contents v.queue),
          f.at_packet.fits,
          d.sound.mapped.held,
          f.is_size,
        );
        rest =
            c.cleared
            ∙ ap (λ (bytes : List ℕ). drop v.packet_size bytes) f.skips.skipped
            ∙ sym (drop-drop n v.packet_size (pending g w));
        offset = c.offset ∙ f.offset_after;
      } in
      record {
        sound = record {
          mapped = c.mapped;
          sized = inr (subst IsPacketSize (sym c.packet_size) f.is_size);
        };
        count = n;
        outcome = inr (
          place,
          ap (found place) f.offset_before,
          subst (λ (k : ℕ). Took w (clear_packet g v) n k) (sym c.packet_size) took,
        );
      }

  -- In a sound window, processing the next packet reads no byte outside the mapped ones and ends
  -- within two rounds. It leaves a sound window. Some of the first bytes that were pending are gone,
  -- and if there was a packet, so are its bytes after them, with the sync byte where it belongs, and the
  -- offset went on by one packet.
  pub process_next_packet-Processed :
      (fuel : ℕ) (w : Window Queue)
      → Sound g w
      → Gives (Processed w) (process_next_packet g (suc (suc fuel)) w)
  unfolding process_next_packet
  process_next_packet-Processed fuel w s =
      Gives-bind _ _ (next_packet-Delivered g fuel w s)
        λ r d. Gives-parsed _ (clear_found-Processed w (r.0) (r.1) d)
