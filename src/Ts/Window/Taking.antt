-- ===== src/Ts/Window/Taking.antt =====
-- gst/gst-demux/mpegtspacketizer.c: what taking a packet off the window does.
use helia.Common.{
  ℕ, suc, ◌+◌, ◌%◌, ◌^◌, ◌≤◌, ◌<◌, ◌≡◌, refl, sym, subst, true, false, leb, ◌==◌, arith,
}
use helia.Parsing.{Parse}
use helia.Parsing.Gives.{Gives, Gives-parsed, Gives-bind, Gives-if}
use helia.Ts.Window.{Adapter, Window, sub64, sync_offset, packet_sync_byte, mapped_bytes, map_bytes}
use helia.Ts.Window.Invariant.{Mapped, Mapped-others, Maps, map_bytes-Maps, length-Mapped}
use helia.Ts.Window.Search.{Gives-at}
use helia.Ts.Window.Packets.{
  IsPacketSize, sync_offset-IsPacketSize, Skips, Skips-self, Skips-trans, Skips-need_sync, AtPacket,
  wrap, sync-Gives, map_bytes-Skips,
}
use helia.Ts.Window.Next.{Next, more, spinning, found, check_sync, take_packet, next_loop}

module _ {Queue : Type 0} (g : Adapter Queue) where
  -- A packet was found: it is at the start of the window, and the offset went on by its size.
  pub record Found (w v : Window Queue) (place from : ℕ) : Type 0 where
    pub is_size : IsPacketSize v.packet_size
    pub skips : Skips g (record w { offset = v.offset }) v
    pub at_packet : AtPacket g v
    pub place_lem : place ≡ v.map_offset + sync_offset v.packet_size
    pub offset_before : from ≡ w.offset
    pub offset_after : v.offset ≡ (w.offset + w.packet_size) % 2 ^ 64

  -- How taking a packet ends.
  abbrev pub Taken : Window Queue → Window Queue × Next → Type 0
  Taken w (v, more) = Skips g w v
  Taken w (v, spinning) = ⊥
  Taken w (v, found start offset) = Found w v start offset

  check_sync-Taken :
      (again : Window Queue → Parse (Window Queue × Next)) (u w : Window Queue)
      → IsPacketSize w.packet_size
      → w.map_offset + w.packet_size ≤ w.map_size
      → Skips g u w
      → (¬ AtPacket g w → Gives (Taken u) (again (record w { need_sync = true })))
      → Gives (Taken u) (check_sync g again w)
  unfolding check_sync
  check_sync-Taken again u w p fits k next =
      Gives-bind _ _
        (Gives-at (mapped_bytes w.map_data) (w.map_offset + sync_offset w.packet_size) (
          omega
            (arith, length-Mapped g w k.mapped, sync_offset-IsPacketSize w.packet_size p, fits)))
        λ b m.
          Gives-if (b == packet_sync_byte) _ _
            (λ e. Gives-parsed _ (record {
              is_size = p;
              skips = record {
                mapped =
                    Mapped-others g w w.packet_size ((w.offset + w.packet_size) % 2 ^ 64)
                      w.need_sync w.empty k.mapped;
                count = k.count;
                skipped = k.skipped;
                packet_size = k.packet_size;
                offset = refl;
              };
              at_packet = record { sync_byte = ground (arith, m, e); fits = fits };
              place_lem = refl;
              offset_before = k.offset;
              offset_after = ground (arith, k.offset, k.packet_size);
            }))
            λ e. next (λ a. ground (arith, m, e, a.sync_byte))

  map_bytes_here :
      (size : ℕ) (w : Window Queue)
      → Mapped g w
      → w.map_offset + size ≤ w.map_size
      → map_bytes g size w ≡ (w, true)
  unfolding map_bytes
  map_bytes_here size w v h =
      let here : leb size (sub64 w.map_size w.map_offset) ≡ true = ground (arith, wrap g w v, h) in
      rw here refl

  -- A round at a packet takes it.
  take_packet-at :
      (again : Window Queue → Parse (Window Queue × Next)) (u w : Window Queue)
      → IsPacketSize w.packet_size
      → Skips g u w
      → AtPacket g w
      → Gives (Taken u) (take_packet g again w)
  unfolding take_packet
  take_packet-at again u w p k a =
      rw (map_bytes_here w.packet_size w k.mapped a.fits)
        (check_sync-Taken again u w p a.fits k (λ n. absurd (n a)))

  -- A round elsewhere goes on to the next one.
  take_packet-Taken :
      (again : Window Queue → Parse (Window Queue × Next)) (u w : Window Queue)
      → IsPacketSize w.packet_size
      → Skips g u w
      → ((v : Window Queue) → Skips g u v → Gives (Taken u) (again (record v { need_sync = true })))
      → Gives (Taken u) (take_packet g again w)
  unfolding take_packet
  take_packet-Taken again u w p k next =
      let r = map_bytes g w.packet_size w in
      let positive : 0 < w.packet_size = omega (arith, p) in
      let m : Maps g w.packet_size w r = map_bytes-Maps g w.packet_size w positive k.mapped in
      let moves : Skips g u (r.0) =
        Skips-trans g u w (r.0) k (map_bytes-Skips g w.packet_size w positive k.mapped) in
      Gives-if (r.1) _ _
        (λ e.
          check_sync-Taken again u (r.0) (subst IsPacketSize (sym m.packet_size) p)
            (omega (arith, m.room e, m.packet_size, m.mapped.within)) moves (λ n. next (r.0) moves))
        λ e. Gives-parsed _ moves

  -- A round that has to find the packets first; `others` is what holds when it does not.
  next_loop_syncing :
      (fuel : ℕ) (u w : Window Queue)
      → IsPacketSize u.packet_size
      → Skips g u w
      → (w.need_sync ≡ false → Gives (Taken u) (take_packet g (next_loop g fuel) w))
      → Gives (Taken u) (next_loop g (suc fuel) w)
  unfolding next_loop
  next_loop_syncing fuel u w p k others =
      Gives-if w.need_sync _ _
        (λ here.
          Gives-bind _ _ (sync-Gives g w (subst IsPacketSize (sym k.packet_size) p) k.mapped)
            λ r (moves, at_packet).
              let all : Skips g u (r.0) = Skips-trans g u w (r.0) k moves in
              Gives-if (r.1) _ _
                (λ e.
                  take_packet-at (next_loop g fuel) u (record r.0 { need_sync = false })
                    (subst IsPacketSize (sym all.packet_size) p)
                    (Skips-need_sync g u (r.0) false all) (at_synced (at_packet e)))
                λ e. Gives-parsed _ all)
        others
    where
      at_synced : {v : Window Queue} → AtPacket g v → AtPacket g (record v { need_sync = false })
      at_synced a = record { sync_byte = a.sync_byte; fits = a.fits }

  -- Two rounds are enough.
  pub next_loop-Taken :
      (fuel : ℕ) (w : Window Queue)
      → IsPacketSize w.packet_size
      → Mapped g w
      → Gives (Taken w) (next_loop g (suc (suc fuel)) w)
  next_loop-Taken fuel w p v =
      let self = Skips-self g w v in
      next_loop_syncing (suc fuel) w w p self λ e.
        take_packet-Taken (next_loop g (suc fuel)) w w p self λ u k.
          next_loop_syncing fuel w (record u { need_sync = true }) p (Skips-need_sync g w u true k)
            λ f. absurd (ground (arith, f))
