-- ===== src/Ts/Window/Packets.antt =====
-- gst/gst-demux/mpegtspacketizer.c: the packets that are taken off the window.
use helia.Common.{
  ℕ, zero, suc, ◌+◌, ◌-◌, ◌*◌, ◌≤◌, ◌<◌, ◌≡◌, refl, sym, ap, subst, ◌∙◌, ◌⊎◌, inl, inr, Bool, true,
  some, List, [], ◌∷◌, length, drop, get_elem?, length-drop, arith,
}
use helia.Parsing.Gives.{Gives, Gives-parsed, Gives-bind, Gives-if, Gives-weaken}
use helia.Ts.Window.{
  Adapter, Window, packet_sync_byte, sync_offset, sub64, mapped_bytes, window_bytes, flush_bytes,
  map_bytes, sync_mapped, sync,
}
use helia.Ts.Window.Invariant.{
  Mapped, Mapped-others, pending, drop-drop, length-Mapped, flush_bytes-Mapped, flush_bytes-pending,
  Maps, map_bytes-Maps,
}
use helia.Ts.Window.Search.{sync_loop-Searched}

-- The sizes of a packet.
abbrev pub IsPacketSize : ℕ → Type 0
IsPacketSize p = (p ≡ 188) ⊎ ((p ≡ 192) ⊎ ((p ≡ 204) ⊎ (p ≡ 208)))

-- The 188 bytes from the sync byte on are within a packet.
pub sync_offset-IsPacketSize : (p : ℕ) → IsPacketSize p → sync_offset p + 188 ≤ p
sync_offset-IsPacketSize p h = elim h [
  | inl e ↦ rw e (omega arith)
  | inr (inl e) ↦ rw e (omega arith)
  | inr (inr (inl e)) ↦ rw e (omega arith)
  | inr (inr (inr e)) ↦ rw e (omega arith)
]

-- A byte of the window is one of the mapped bytes.
pub get_elem?-drop :
    (n k : ℕ) (bytes : List ℕ) → get_elem? (drop n bytes) k ≡ get_elem? bytes (n + k)
get_elem?-drop zero k bytes = ground arith
get_elem?-drop (suc n) k [] = refl
get_elem?-drop (suc n) k (b ∷ bytes) =
    let later : suc n + k ≡ suc (n + k) = omega arith in rw later (get_elem?-drop n k bytes)

module _ {Queue : Type 0} (g : Adapter Queue) where
  -- The bytes of `v` are those of `w` without some of the first; sizes and offsets are the same.
  pub record Skips (w v : Window Queue) : Type 0 where
    pub mapped : Mapped g v
    pub count : ℕ
    pub skipped : pending g v ≡ drop count (pending g w)
    pub packet_size : v.packet_size ≡ w.packet_size
    pub offset : v.offset ≡ w.offset

  pub Skips-self : (w : Window Queue) → Mapped g w → Skips w w
  Skips-self w v = record {
    mapped = v;
    count = 0;
    skipped = refl;
    packet_size = refl;
    offset = refl;
  }

  pub Skips-trans : (u v w : Window Queue) → Skips u v → Skips v w → Skips u w
  Skips-trans u v w a b = record {
    mapped = b.mapped;
    count = a.count + b.count;
    skipped =
        b.skipped
        ∙ ap (λ (bytes : List ℕ). drop b.count bytes) a.skipped
        ∙ sym (drop-drop a.count b.count (pending g u));
    packet_size = b.packet_size ∙ a.packet_size;
    offset = b.offset ∙ a.offset;
  }

  pub Skips-need_sync :
      (u v : Window Queue) (need_sync : Bool)
      → Skips u v
      → Skips u (record v { need_sync = need_sync })
  Skips-need_sync u v need_sync s = record {
    mapped = Mapped-others g v v.packet_size v.offset need_sync v.empty s.mapped;
    count = s.count;
    skipped = s.skipped;
    packet_size = s.packet_size;
    offset = s.offset;
  }

  pub length-window_bytes :
      (w : Window Queue) → Mapped g w → length (window_bytes g w) ≡ w.map_size - w.map_offset
  length-window_bytes w v =
      length-drop w.map_offset (mapped_bytes w.map_data)
      ∙ ap (λ (n : ℕ). n - w.map_offset) (length-Mapped g w v)

  pub wrap :
      (w : Window Queue) → Mapped g w → sub64 w.map_size w.map_offset ≡ w.map_size - w.map_offset
  wrap w v = omega (arith, v.held, v.within, v.short)

  -- Moving the offset on within the mapped bytes.
  pub advance-Skips :
      (w : Window Queue) (n : ℕ)
      → Mapped g w
      → w.map_offset + n ≤ w.map_size
      → Skips w (record w { map_offset = w.map_offset + n })
  advance-Skips w n v h = record {
    mapped = record { bytes = v.bytes; held = v.held; within = h; short = v.short };
    count = n;
    skipped = drop-drop w.map_offset n (g.contents w.queue);
    packet_size = refl;
    offset = refl;
  }

  -- Flushing what stands before the offset.
  pub flush-Skips : (w : Window Queue) → Mapped g w → Skips w (flush_bytes g w.map_offset w)
  unfolding flush_bytes
  flush-Skips w v =
      let there : w.map_offset ≤ length (g.contents w.queue) = omega (arith, v.held, v.within) in
      record {
        mapped = flush_bytes-Mapped g w.map_offset w v there;
        count = 0;
        skipped = flush_bytes-pending g w.map_offset w there;
        packet_size = refl;
        offset = refl;
      }

  -- The window stands at a packet that is mapped and has its sync byte.
  pub record AtPacket (w : Window Queue) : Type 0 where
    pub sync_byte :
        get_elem? (mapped_bytes w.map_data) (w.map_offset + sync_offset w.packet_size)
        ≡ some packet_sync_byte
    pub fits : w.map_offset + w.packet_size ≤ w.map_size

  sync_mapped-Gives :
      (w : Window Queue)
      → IsPacketSize w.packet_size
      → 3 * w.packet_size ≤ w.map_size - w.map_offset
      → Mapped g w
      → Gives
          (λ (r : Window Queue × Bool). Skips w (r.0) × (r.1 ≡ true → AtPacket (r.0)))
          (sync_mapped g w)
  unfolding sync_mapped
  sync_mapped-Gives w p room v =
      let start = sync_offset w.packet_size in
      let size_lem = wrap w v in
      let small : start ≤ 4 = ground arith in
      Gives-bind _ _
        (sync_loop-Searched (window_bytes g w) w.packet_size
          (sub64 w.map_size w.map_offset - (start + 2 * w.packet_size)) start
          (omega (arith, length-window_bytes w v)))
        λ r s.
          let moves : Skips w (record w { map_offset = w.map_offset + (r.0 - start) }) =
            advance-Skips w (r.0 - start) v (omega (arith, s.to, v.within)) in
          Gives-if (r.1) _ _
            (λ e. Gives-parsed _ (
              moves,
              λ t. record {
                sync_byte =
                    ap (get_elem? (mapped_bytes w.map_data)) (omega (arith, s.from))
                    ∙ sym (get_elem?-drop w.map_offset (r.0) (mapped_bytes w.map_data))
                    ∙ ((s.hit e).0).0;
                fits = omega (arith, s.from, (s.hit e).1, v.within);
              },
            ))
            λ e.
              let moved = record w { map_offset = w.map_offset + (r.0 - start) } in
              Gives-parsed _ (
                Skips-trans w moved (flush_bytes g moved.map_offset moved) moves
                    (flush-Skips moved moves.mapped),
                λ t. ground (arith, t),
              )

  -- Mapping keeps the bytes that are still to be taken.
  pub map_bytes-Skips :
      (size : ℕ) (w : Window Queue) → 0 < size → Mapped g w → Skips w ((map_bytes g size w).0)
  map_bytes-Skips size w p v =
      let m : Maps g size w (map_bytes g size w) = map_bytes-Maps g size w p v in
      record {
        mapped = m.mapped;
        count = 0;
        skipped = m.pending_same;
        packet_size = m.packet_size;
        offset = m.offset;
      }

  pub sync-Gives :
      (w : Window Queue)
      → IsPacketSize w.packet_size
      → Mapped g w
      → Gives
          (λ (r : Window Queue × Bool). Skips w (r.0) × (r.1 ≡ true → AtPacket (r.0)))
          (sync g w)
  unfolding sync
  sync-Gives w p v =
      let r = map_bytes g (3 * w.packet_size) w in
      let positive : 0 < 3 * w.packet_size = omega (arith, p) in
      let m : Maps g (3 * w.packet_size) w r = map_bytes-Maps g (3 * w.packet_size) w positive v in
      let k = map_bytes-Skips (3 * w.packet_size) w positive v in
      Gives-if (r.1) _ _
        (λ e.
          Gives-weaken _
            (sync_mapped-Gives (r.0) (subst IsPacketSize (sym m.packet_size) p)
              (omega (arith, m.room e, m.packet_size)) m.mapped)
            λ q (moves, at_packet). (Skips-trans w (r.0) (q.0) k moves, at_packet))
        λ e. Gives-parsed _ (k, λ t. ground (arith, t))
