-- ===== src/Ts/Window/Delivery.antt =====
-- gst/gst-demux/mpegtspacketizer.c: what `mpegts_packetizer_next_packet` does to a sound window.
use helia.Common.{ℕ, suc, ◌+◌, ◌≡◌, refl, sym, ap, ◌∙◌, subst, inl, inr, List, drop, ◌==◌, arith}
use helia.Parsing.Gives.{Gives, Gives-parsed, Gives-bind, Gives-if, Gives-weaken}
use helia.Ts.Window.{Adapter, Window}
use helia.Ts.Window.Invariant.{drop-drop, Mapped, pending}
use helia.Ts.Window.Packets.{IsPacketSize, Skips, Skips-self, Skips-trans}
use helia.Ts.Window.Sizing.{Sound, try_discover_packet_size-Sized}
use helia.Ts.Window.Taking.{Taken, next_loop-Taken}
use helia.Ts.Window.Next.{Next, more, spinning, found, next_packet}

module _ {Queue : Type 0} (g : Adapter Queue) where
  Taken-packet_size :
      (w : Window Queue) (r : Window Queue × Next) → Taken g w r → r.0.packet_size ≡ w.packet_size
  Taken-packet_size w (v, more) t = t.packet_size
  Taken-packet_size w (v, spinning) t = absurd t
  Taken-packet_size w (v, found place from) t = t.skips.packet_size

  Taken-Mapped : (w : Window Queue) (r : Window Queue × Next) → Taken g w r → Mapped g (r.0)
  Taken-Mapped w (v, more) t = t.mapped
  Taken-Mapped w (v, spinning) t = absurd t
  Taken-Mapped w (v, found place from) t = t.skips.mapped

  -- Bytes that were skipped before.
  Taken-after :
      (u w : Window Queue) (r : Window Queue × Next) → Skips g u w → Taken g w r → Taken g u r
  Taken-after u w (v, more) k t = Skips-trans g u w v k t
  Taken-after u w (v, spinning) k t = t
  Taken-after u w (v, found place from) k t = record {
    is_size = t.is_size;
    skips = record {
      mapped = t.skips.mapped;
      count = k.count + t.skips.count;
      skipped =
          t.skips.skipped
          ∙ ap (λ (bytes : List ℕ). drop t.skips.count bytes) k.skipped
          ∙ sym (drop-drop k.count t.skips.count (pending g u));
      packet_size = t.skips.packet_size ∙ k.packet_size;
      offset = refl;
    };
    at_packet = t.at_packet;
    place_lem = t.place_lem;
    offset_before = t.offset_before ∙ k.offset;
    offset_after = ground (arith, t.offset_after, k.offset, k.packet_size);
  }

  -- What `mpegts_packetizer_next_packet` leaves, the packet size that it may have found included.
  pub record Delivered (w : Window Queue) (r : Window Queue × Next) : Type 0 where
    pub sound : Sound g (r.0)
    pub taken : Taken g (record w { packet_size = r.0.packet_size }) r

  -- The result when the packet size is known.
  delivered :
      (w v : Window Queue) (r : Window Queue × Next)
      → IsPacketSize v.packet_size
      → Skips g (record w { packet_size = v.packet_size }) v
      → Taken g v r
      → Delivered w r
  delivered w v r p k t =
      let same : r.0.packet_size ≡ v.packet_size = Taken-packet_size v r t in
      record {
        sound = record {
          mapped = Taken-Mapped v r t;
          sized = inr (subst IsPacketSize (sym same) p);
        };
        taken =
            subst (λ (n : ℕ). Taken g (record w { packet_size = n }) r) (sym same)
              (Taken-after (record w { packet_size = v.packet_size }) v r k t);
      }

  -- In a sound window, the search for the next packet reads no byte outside the mapped ones and ends
  -- within two rounds. It leaves a sound window without some of the first bytes that were pending;
  -- if it found a packet, the window stands at it, with the sync byte there and the whole packet
  -- mapped, and the offset went on by one packet.
  pub next_packet-Delivered :
      (fuel : ℕ) (w : Window Queue)
      → Sound g w
      → Gives (Delivered w) (next_packet g (suc (suc fuel)) w)
  unfolding next_packet
  next_packet-Delivered fuel w s =
      Gives-if (w.packet_size == 0) _ _
        (λ z.
          let zero_size : w.packet_size ≡ 0 = ground (arith, z) in
          let start : w.map_offset ≡ 0 = elim s.sized [
            | inl (e, zero_offset) ↦ zero_offset
            | inr p ↦ absurd (omega (arith, zero_size, p))
          ] in
          Gives-bind _ _ (try_discover_packet_size-Sized g w zero_size start s.mapped) λ r d.
            elim d.result [
              | inl (e, p) ↦ rw e (
                  Gives-weaken _ (next_loop-Taken g fuel (r.0) p d.skips.mapped)
                    λ q t. delivered w (r.0) q p d.skips t)
              | inr (e, no_size, at_start) ↦ rw e (
                  Gives-parsed _ (record {
                    sound = record { mapped = d.skips.mapped; sized = inl (no_size, at_start) };
                    taken = d.skips;
                  }))
            ])
        λ z.
          let p : IsPacketSize w.packet_size = elim s.sized [
            | inl (e, zero_offset) ↦ absurd (ground (arith, z, e))
            | inr p ↦ p
          ] in
          Gives-weaken _ (next_loop-Taken g fuel w p s.mapped)
            λ q t. delivered w w q p (Skips-self g w s.mapped) t
