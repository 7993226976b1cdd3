-- ===== src/Ts/Window/Sizing.antt =====
-- gst/gst-demux/mpegtspacketizer.c: the packet size that the search finds.
use helia.Common.{
  ℕ, ◌+◌, ◌-◌, ◌*◌, ◌≤◌, ◌≡◌, refl, ◌∙◌, ap, subst, ◌⊎◌, inl, inr, Bool, true, false, ◌&&◌, List,
  drop, leb, ◌==◌, if◌then◌else◌, arith,
}
use helia.Parsing.Gives.{Gives, Gives-parsed, Gives-bind, Gives-if, Gives-weaken}
use helia.Ts.Window.{
  Adapter, Window, sub64, window_bytes, psizes, max_packetsize, m2ts_packetsize, flush_bytes,
  map_bytes, discover_mapped, try_discover_packet_size,
}
use helia.Ts.Window.Invariant.{Mapped, Mapped-others, Maps, map_bytes-Maps}
use helia.Ts.Window.Search.{Fitting, discover_loop-Discovered}
use helia.Ts.Window.Packets.{
  IsPacketSize, Skips, Skips-trans, wrap, length-window_bytes, advance-Skips, flush-Skips,
}

Fitting-IsPacketSize : (bytes : List ℕ) (i p : ℕ) → Fitting bytes i p psizes → IsPacketSize p
Fitting-IsPacketSize bytes i p f = elim f [
  | inl (e, s) ↦ inl e
  | inr (inl (e, s)) ↦ inr (inl e)
  | inr (inr (inl (e, s))) ↦ inr (inr (inl e))
  | inr (inr (inr (inl (e, s)))) ↦ inr (inr (inr e))
  | inr (inr (inr (inr x))) ↦ elim x [ ]
]

module _ {Queue : Type 0} (g : Adapter Queue) where
  -- What is known of the window at all times. A window without a packet size stands at the start of
  -- its mapped bytes.
  pub record Sound (w : Window Queue) : Type 0 where
    pub mapped : Mapped g w
    pub sized : ((w.packet_size ≡ 0) × (w.map_offset ≡ 0)) ⊎ IsPacketSize w.packet_size

  -- What the search for a packet size leaves.
  pub record Sized (w : Window Queue) (r : Window Queue × Bool) : Type 0 where
    pub skips : Skips g (record w { packet_size = r.0.packet_size }) (r.0)
    pub result :
        ((r.1 ≡ true) × IsPacketSize r.0.packet_size)
        ⊎ ((r.1 ≡ false) × (r.0.packet_size ≡ 0) × (r.0.map_offset ≡ 0))

  discover_mapped-Sized :
      (w : Window Queue)
      → w.packet_size ≡ 0
      → w.map_offset ≡ 0
      → 4 * max_packetsize ≤ w.map_size
      → Mapped g w
      → Gives (Sized w) (discover_mapped g w)
  unfolding discover_mapped flush_bytes
  discover_mapped-Sized w z start room v =
      let size_lem = wrap g w v in
      Gives-bind _ _
        (discover_loop-Discovered (window_bytes g w)
          (sub64 w.map_size w.map_offset - 3 * max_packetsize) 0
          (omega (arith, length-window_bytes g w v)))
        λ r d.
          let p = if r.1 == 0 then w.packet_size else r.1 in
          let sized = record w { packet_size = p } in
          let moved = record sized { map_offset = w.map_offset + r.0 } in
          let sized_lem : Mapped g sized = Mapped-others g w p w.offset w.need_sync w.empty v in
          let moves : Skips g sized moved =
            advance-Skips g sized (r.0) sized_lem (omega (arith, d.to, v.within)) in
          Gives-if (p == 0) _ _
            (λ e. Gives-parsed _ (record {
              skips =
                  Skips-trans g sized moved (flush_bytes g moved.map_offset moved) moves
                    (flush-Skips g moved moves.mapped);
              result = inr (refl, ground (arith, e), refl);
            }))
            λ e.
              let is_size : IsPacketSize p = elim d.outcome [
                | inl (l, (b, f)) ↦
                    subst IsPacketSize (ground (arith, e, z))
                      (Fitting-IsPacketSize (window_bytes g w) (r.0) (r.1) f)
                | inr (l, none_found) ↦ absurd (ground (arith, e, z, none_found))
              ] in
              Gives-if (p == m2ts_packetsize && leb 4 (w.map_offset + r.0)) _ _
                (λ b. Gives-parsed _ (record {
                  skips =
                      subst (λ (n : ℕ). Skips g sized (record sized { map_offset = n }))
                        (omega (arith, start, b))
                        (advance-Skips g sized (r.0 - 4) sized_lem (omega (arith, d.to, v.within)));
                  result = inl (refl, is_size);
                }))
                λ b. Gives-parsed _ (record { skips = moves; result = inl (refl, is_size) })

  pub try_discover_packet_size-Sized :
      (w : Window Queue)
      → w.packet_size ≡ 0
      → w.map_offset ≡ 0
      → Mapped g w
      → Gives (Sized w) (try_discover_packet_size g w)
  unfolding try_discover_packet_size
  try_discover_packet_size-Sized w z start v =
      let r = map_bytes g (4 * max_packetsize) w in
      let m : Maps g (4 * max_packetsize) w r =
        map_bytes-Maps g (4 * max_packetsize) w (omega arith) v in
      Gives-if (r.1) _ _
        (λ e.
          Gives-weaken _
            (discover_mapped-Sized (r.0) (m.packet_size ∙ z) (m.start start)
              (omega (arith, m.room e)) m.mapped)
            λ q s. record {
              skips = record {
                mapped = s.skips.mapped;
                count = s.skips.count;
                skipped =
                    s.skips.skipped
                    ∙ ap (λ (bytes : List ℕ). drop s.skips.count bytes) m.pending_same;
                packet_size = refl;
                offset = s.skips.offset ∙ m.offset;
              };
              result = s.result;
            })
        λ e. Gives-parsed _ (record {
          skips = record {
            mapped = m.mapped;
            count = 0;
            skipped = m.pending_same;
            packet_size = refl;
            offset = m.offset;
          };
          result = inr (refl, m.packet_size ∙ z, m.start start);
        })
