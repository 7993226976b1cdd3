-- ===== src/Ts/Window/Invariant.antt =====
-- gst/gst-demux/mpegtspacketizer.c: what holds of the window, and that mapping keeps it.
use helia.Common.{
  ℕ, zero, suc, ◌+◌, ◌-◌, ◌^◌, ◌≤◌, ◌<◌, ◌≡◌, refl, sym, ap, ◌∙◌, inl, inr, Bool, true, some, List,
  [], ◌∷◌, ltb, leb, if◌then◌else◌, length, take, drop, length-drop, arith, Bool-cases,
  Option-cases,
}
use helia.Ts.Window.{Adapter, Window, sub64, mapped_bytes, flush_bytes, map_bytes}

drop-nil : (n : ℕ) → drop {A = ℕ} n [] ≡ []
drop-nil zero = refl
drop-nil (suc n) = refl

pub drop-drop : (m n : ℕ) (xs : List ℕ) → drop (m + n) xs ≡ drop n (drop m xs)
drop-drop zero n xs = ground arith
drop-drop (suc m) n [] = drop-nil (suc m + n) ∙ sym (drop-nil n)
drop-drop (suc m) n (x ∷ xs) =
    let later : suc m + n ≡ suc (m + n) = omega arith in rw later (drop-drop m n xs)

pub length-take_min : (n : ℕ) (xs : List ℕ) → n ≤ length xs → length (take n xs) ≡ n
length-take_min zero xs h = refl
length-take_min (suc n) [] h = absurd (omega arith)
length-take_min (suc n) (x ∷ xs) h = ap suc (length-take_min n xs (omega arith))

module _ {Queue : Type 0} (g : Adapter Queue) where
  -- The mapped bytes are the first of the adapter's, the offset is within them, and sizes fit gsize.
  pub record Mapped (w : Window Queue) : Type 0 where
    pub bytes : mapped_bytes w.map_data ≡ take w.map_size (g.contents w.queue)
    pub held : w.map_size ≤ length (g.contents w.queue)
    pub within : w.map_offset ≤ w.map_size
    pub short : length (g.contents w.queue) < 2 ^ 63

  -- It does not depend on the other fields.
  pub Mapped-others :
      (w : Window Queue) (packet_size offset : ℕ) (need_sync empty : Bool)
      → Mapped w
      → Mapped (record w {
        packet_size = packet_size;
        need_sync = need_sync;
        offset = offset;
        empty = empty;
      })
  Mapped-others w packet_size offset need_sync empty v = record {
    bytes = v.bytes;
    held = v.held;
    within = v.within;
    short = v.short;
  }

  -- The bytes that are still to be taken.
  abbrev pub pending : Window Queue → List ℕ
  pending w = drop w.map_offset (g.contents w.queue)

  pub length-Mapped : (w : Window Queue) → Mapped w → length (mapped_bytes w.map_data) ≡ w.map_size
  length-Mapped w v = rw (v.bytes) (length-take_min w.map_size (g.contents w.queue) v.held)

  -- A flush up to a position of the mapped bytes.
  pub flush_bytes-Mapped :
      (n : ℕ) (w : Window Queue)
      → Mapped w
      → n ≤ length (g.contents w.queue)
      → Mapped (flush_bytes g n w)
  unfolding flush_bytes
  flush_bytes-Mapped n w v h = record {
    bytes = refl;
    held = omega arith;
    within = omega arith;
    short = flushed;
  }
    where
      flushed : length (g.contents (if ltb 0 n then g.flush w.queue n else w.queue)) < 2 ^ 63
      flushed = elim (Bool-cases (ltb 0 n)) [
        | inl e ↦
            rw (e, g.contents-flush w.queue n h)
              (omega (arith, length-drop n (g.contents w.queue), v.short))
        | inr e ↦ rw e v.short
      ]

  pub flush_bytes-pending :
      (n : ℕ) (w : Window Queue)
      → n ≤ length (g.contents w.queue)
      → pending (flush_bytes g n w) ≡ drop n (g.contents w.queue)
  unfolding flush_bytes
  flush_bytes-pending n w h = elim (Bool-cases (ltb 0 n)) [
    | inl e ↦ rw (e, g.contents-flush w.queue n h)
    | inr e ↦ rw e (ground arith)
  ]

  -- What mapping `size` bytes leaves.
  pub record Maps (size : ℕ) (w : Window Queue) (r : Window Queue × Bool) : Type 0 where
    pub mapped : Mapped (r.0)
    pub pending_same : pending (r.0) ≡ pending w
    pub packet_size : r.0.packet_size ≡ w.packet_size
    pub need_sync : r.0.need_sync ≡ w.need_sync
    pub offset : r.0.offset ≡ w.offset
    pub start : w.map_offset ≡ 0 → r.0.map_offset ≡ 0
    pub room : r.1 ≡ true → size ≤ r.0.map_size - r.0.map_offset

  mapped_all :
      (q : Queue) (n : ℕ) (bytes : List ℕ) → g.map q n ≡ some bytes → bytes ≡ take n (g.contents q)
  mapped_all q n bytes e = elim (g.map_lem q n) [
    | inl failed ↦ ground (arith, e, failed)
    | inr all ↦ ground (arith, e, all)
  ]

  pub map_bytes-Maps :
      (size : ℕ) (w : Window Queue) → 0 < size → Mapped w → Maps size w (map_bytes g size w)
  unfolding map_bytes flush_bytes
  map_bytes-Maps size w p v =
      let wrap : sub64 w.map_size w.map_offset ≡ w.map_size - w.map_offset =
        omega (arith, v.held, v.within, v.short) in
      elim (Bool-cases (leb size (sub64 w.map_size w.map_offset))) [
        | inl e ↦ rw e (record {
          mapped = v;
          pending_same = refl;
          packet_size = refl;
          need_sync = refl;
          offset = refl;
          start = λ z. z;
          room = λ t. ground (arith, e, wrap);
        })
        | inr e ↦
            let f = flush_bytes g w.map_offset w in
            let fv : Mapped f =
              flush_bytes-Mapped w.map_offset w v (omega (arith, v.held, v.within)) in
            let fp : g.contents f.queue ≡ pending w =
              flush_bytes-pending w.map_offset w (omega (arith, v.held, v.within)) in
            rw e (elim (Bool-cases (ltb (g.available f.queue) size)) [
              | inl small ↦ rw small (record {
                mapped = fv;
                pending_same = fp;
                packet_size = refl;
                need_sync = refl;
                offset = refl;
                start = λ z. refl;
                room = λ t. ground (arith, t);
              })
              | inr large ↦ rw large (elim (Option-cases (g.map f.queue (g.available f.queue))) [
                | inl failed ↦ rw failed (record {
                  mapped = fv;
                  pending_same = fp;
                  packet_size = refl;
                  need_sync = refl;
                  offset = refl;
                  start = λ z. refl;
                  room = λ t. ground (arith, t);
                })
                | inr (bytes, there) ↦ rw there (record {
                  mapped = record {
                    bytes = mapped_all f.queue (g.available f.queue) bytes there;
                    held = omega (arith, g.available_lem f.queue);
                    within = omega arith;
                    short = fv.short;
                  };
                  pending_same = fp;
                  packet_size = refl;
                  need_sync = refl;
                  offset = refl;
                  start = λ z. refl;
                  room = λ t. ground (arith, large);
                })
              ])
            ])
      ]
