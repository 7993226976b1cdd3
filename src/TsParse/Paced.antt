-- ===== src/TsParse/Paced.antt =====
-- gst/gst-demux/mpegtsparse.c: the times of the buffers between two PCRs are between them and in order.
use helia.Common.{
  ℕ, ◌+◌, ◌-◌, ◌*◌, ◌/◌, ◌%◌, ◌^◌, ◌≤◌, ◌<◌, ◌≡◌, refl, sym, ap, subst, ◌∙◌, true, false, not, ◌&&◌,
  some, inl, inr, List, [], ◌∷◌, ◌++◌, ltb, ◌==◌, length, arith, Bool-cases, append-nil,
  append_assoc,
}
use native.Mathlib.Nat.{div-le_of_le-mul, le-div_iff_mul-le, div-mul-le_self}
use helia.Ts.Window.{sub64}
use helia.Ts.Timing.Within.{RoundsDown}
use helia.Ts.Clock.{is_valid}
use helia.TsParse.{TimedBuffer, TsParser}
use helia.TsParse.Draining.{
  Downstream, Pace, oldest_first, pace_of, paced_time, stamp, push_paced, drain_list,
  drain_pending_buffers,
}

-- Pads that take every buffer; `sent` are those that they took, with their times.
pub record Takes (d : Downstream) : Type 0 where
  pub sent : d.Out → List TimedBuffer
  pub starts_ok : d.is_ok d.ok ≡ true
  pub push_ok : (b : TimedBuffer) (out : d.Out) → d.is_ok ((d.push b out).0) ≡ true
  pub push_sent : (b : TimedBuffer) (out : d.Out) → sent ((d.push b out).1) ≡ sent out ++ b ∷ []

-- The same buffers in the same order, with times in order and within bounds; the DTS is the PTS.
abbrev pub Stamped : ℕ → ℕ → List TimedBuffer → List TimedBuffer → Type 0
Stamped low high [] [] = low ≤ high
Stamped low high [] (s ∷ ss) = ⊥
Stamped low high (b ∷ buffers) [] = ⊥
Stamped low high (b ∷ buffers) (s ∷ ss) =
    (s.bytes ≡ b.bytes) × (s.dts ≡ s.pts) × (low ≤ s.pts) × Stamped s.pts high buffers ss

abbrev pub total_bytes : List TimedBuffer → ℕ
total_bytes [] = 0
total_bytes (b ∷ buffers) = length b.bytes + total_bytes buffers

share_mono : (a b c n : ℕ) → a ≤ b → 0 < n → c * a / n ≤ c * b / n
share_mono a b c n h p =
    let below = div-mul-le_self (c * a) n in
    let more : c * a ≤ c * b = grind arith in (le-div_iff_mul-le p).1 (omega (arith, below, more))

-- A pace whose times are no numbers that stand for none.
record IsPace (pace : Pace) : Type 0 where
  fits : pace.start_ts + pace.pcr_diff < 2 ^ 64 - 1
  some_bytes : 0 < pace.pcr_bytes
  bytes_fit : pace.pcr_bytes < 2 ^ 64

Stamped-weaken :
    (low least high : ℕ) (buffers ss : List TimedBuffer)
    → least ≤ low
    → Stamped low high buffers ss
    → Stamped least high buffers ss
Stamped-weaken low least high [] [] h b = omega (arith, h, b)
Stamped-weaken low least high [] (s ∷ ss) h b = b
Stamped-weaken low least high (b ∷ buffers) [] h c = c
Stamped-weaken low least high (b ∷ buffers) (s ∷ ss) h (same, dts, least_pts, rest) =
    (same, dts, omega (arith, h, least_pts), rest)

total_bytes-snoc :
    (buffers : List TimedBuffer) (b : TimedBuffer)
    → total_bytes (buffers ++ b ∷ []) ≡ total_bytes buffers + length b.bytes
total_bytes-snoc [] b = omega arith
total_bytes-snoc (c ∷ buffers) b = omega (arith, total_bytes-snoc buffers b)

total_bytes-oldest_first :
    (buffers : List TimedBuffer) → total_bytes (oldest_first buffers) ≡ total_bytes buffers
total_bytes-oldest_first [] = refl
total_bytes-oldest_first (b ∷ buffers) =
    total_bytes-snoc (oldest_first buffers) b ∙ omega (arith, total_bytes-oldest_first buffers)

-- The pace between two PCRs.
pace_between :
    (newest : TimedBuffer) (pcr_bytes : ℕ) (p : TsParser)
    → p.previous_pcr < p.current_pcr
    → p.current_pcr < 2 ^ 64 - 1
    → p.smoothing_latency ≤ p.current_pcr - p.previous_pcr
    → p.bytes_since_pcr ≡ length newest.bytes + pcr_bytes
    → p.bytes_since_pcr < 2 ^ 32
    → pace_of false newest p
      ≡ some (record {
        start_ts = p.previous_pcr;
        pcr_diff = p.current_pcr - p.previous_pcr;
        pcr_bytes = pcr_bytes;
      })
unfolding pace_of
pace_between newest pcr_bytes p ahead valid far counted small =
    let known : not (is_valid p.previous_pcr) ≡ false = ground (arith, ahead, valid) in
    let seen : (is_valid p.current_pcr && ltb p.previous_pcr p.current_pcr) ≡ true =
      ground (arith, ahead, valid) in
    let apart : ltb (p.current_pcr - p.previous_pcr) p.smoothing_latency ≡ false =
      ground (arith, far) in
    let between : sub64 p.bytes_since_pcr (length newest.bytes) ≡ pcr_bytes =
      omega (arith, counted, small) in
    rw (known, seen, apart, between) refl

module _ (scale : ℕ → ℕ → ℕ → ℕ) (rounding : RoundsDown scale) where
  paced_time-share :
      (pace : Pace) (pos : ℕ)
      → IsPace pace
      → pos ≤ pace.pcr_bytes
      → (paced_time scale pace pos ≡ pace.start_ts + pace.pcr_diff * pos / pace.pcr_bytes)
        × (pace.pcr_diff * pos / pace.pcr_bytes ≤ pace.pcr_diff)
  unfolding paced_time
  paced_time-share pace pos v h =
      let share : pace.pcr_diff * pos / pace.pcr_bytes ≤ pace.pcr_diff =
        div-le_of_le-mul pace.pcr_bytes (grind arith) in
      (
        elim (Bool-cases (pos == 0)) [
          | inl first ↦
              let z : pos ≡ 0 = ground (arith, first) in
              let nothing : pace.pcr_diff * pos / pace.pcr_bytes ≤ 0 =
                div-le_of_le-mul pace.pcr_bytes (grind (arith, z)) in
              let unpaced : (is_valid pace.start_ts
                    && is_valid pace.pcr_diff
                    && not (pace.pcr_bytes == 0)
                    && not (pos == 0))
                  ≡ false =
                ground (arith, first) in
              rw unpaced (omega (arith, nothing))
          | inr later ↦
              let paced : (is_valid pace.start_ts
                    && is_valid pace.pcr_diff
                    && not (pace.pcr_bytes == 0)
                    && not (pos == 0))
                  ≡ true =
                ground (arith, later, v.fits, v.some_bytes) in
              let exact =
                rounding.rounds pace.pcr_diff pos pace.pcr_bytes v.some_bytes
                  (omega (arith, share, v.fits)) in
              rw (paced, exact) (omega (arith, share, v.fits))
        ],
        share,
      )

  paced_time_mono :
      (pace : Pace) (pos later : ℕ)
      → IsPace pace
      → pos ≤ later
      → later ≤ pace.pcr_bytes
      → paced_time scale pace pos ≤ paced_time scale pace later
  paced_time_mono pace pos later v h k =
      let (a, b) = paced_time-share pace pos v (omega (arith, h, k)) in
      let (c, e) = paced_time-share pace later v k in
      let more = share_mono pos later pace.pcr_diff pace.pcr_bytes h v.some_bytes in
      omega (arith, a, c, more)

  module _ (d : Downstream) (w : Takes d) where
    open d use {Out, Flow, ok, is_ok, push}
    open w use {sent}

    -- The buffers went out, with times in order and within bounds.
    abbrev pub Went : List TimedBuffer → ℕ → ℕ → Out → Out → Type 0
    Went buffers low high before after =
        (ss : List TimedBuffer) × (sent after ≡ sent before ++ ss) × Stamped low high buffers ss

    push_paced-Went :
        (pace : Pace) (ts_offset pos : ℕ) (buffers : List TimedBuffer) (flow : Flow) (out : Out)
        → IsPace pace
        → is_ok flow ≡ true
        → pos + total_bytes buffers ≤ pace.pcr_bytes
        → pace.start_ts + pace.pcr_diff + ts_offset < 2 ^ 64
        → Went buffers
            (paced_time scale pace pos + ts_offset)
            (pace.start_ts + pace.pcr_diff + ts_offset)
            out
            ((push_paced scale d pace ts_offset pos buffers flow out).1)
    unfolding push_paced
    push_paced-Went pace ts_offset pos [] flow out v h room fits =
        let (a, b) = paced_time-share pace pos v (omega (arith, room)) in
        ([], sym (append-nil (sent out)), omega (arith, a, b))
    push_paced-Went pace ts_offset pos (b ∷ buffers) flow out v h room fits =
        let now = paced_time scale pace pos in
        let stamped = stamp now ts_offset b in
        let (result, after) = push stamped out in
        let next : (pos + length b.bytes) % 2 ^ 64 ≡ pos + length b.bytes =
          omega (arith, room, v.bytes_fit) in
        let (low, high) = paced_time-share pace pos v (omega (arith, room)) in
        let exact : now + ts_offset ≡ stamped.pts = omega (arith, low, high, fits) in
        let mono =
          paced_time_mono pace pos (pos + length b.bytes) v (omega arith) (omega (arith, room)) in
        let (ss, went, rest) =
          push_paced-Went pace ts_offset (pos + length b.bytes) buffers result after v
            (w.push_ok stamped out) (omega (arith, room)) fits in
        rw (h, push_paced, next)
          (
            stamped ∷ ss,
            went
                ∙ ap (λ s. s ++ ss) (w.push_sent stamped out)
                ∙ append_assoc (sent out) (stamped ∷ []) ss,
            (
              refl,
              refl,
              omega (arith, exact),
              Stamped-weaken (paced_time scale pace (pos + length b.bytes) + ts_offset) stamped.pts
                  _ buffers ss (omega (arith, mono, exact)) rest,
            ),
          )

    -- When a PCR arrives at least a smoothing latency after the one before, the pending buffers but the
    -- newest go out, oldest first and with their bytes, and the newest is left pending. The PTS and the
    -- DTS of each are the same, and their times are in order from the PCR before to the new one, both moved
    -- by the offset of the stream; if the bytes since the PCR before are those of the pending buffers,
    -- there are some, pads take every buffer, scaling rounds down, and no time reaches 2^64.
    pub drain_pending_buffers-Went :
        (newest : TimedBuffer) (older : List TimedBuffer) (p : TsParser) (out : Out)
        → p.pending_buffers ≡ newest ∷ older
        → p.previous_pcr < p.current_pcr
        → p.current_pcr < 2 ^ 64 - 1
        → p.smoothing_latency ≤ p.current_pcr - p.previous_pcr
        → p.bytes_since_pcr ≡ length newest.bytes + total_bytes older
        → 0 < total_bytes older
        → p.bytes_since_pcr < 2 ^ 32
        → p.current_pcr + p.ts_offset < 2 ^ 64
        → Went
            (oldest_first older)
            (p.previous_pcr + p.ts_offset)
            (p.current_pcr + p.ts_offset)
            out
            ((drain_pending_buffers scale d false p out).2)
          × ((drain_pending_buffers scale d false p out).1.pending_buffers ≡ newest ∷ [])
    unfolding drain_pending_buffers
    drain_pending_buffers-Went newest older p out e ahead valid far counted some_bytes small fits =
        let pace : Pace = record {
          start_ts = p.previous_pcr;
          pcr_diff = p.current_pcr - p.previous_pcr;
          pcr_bytes = total_bytes older;
        } in
        let v : IsPace pace = record {
          fits = omega (arith, ahead, valid);
          some_bytes = some_bytes;
          bytes_fit = omega (arith, counted, small);
        } in
        let seen : is_valid p.current_pcr ≡ true = ground (arith, valid) in
        let chosen = pace_between newest (total_bytes older) p ahead valid far counted small in
        let (start, rest) = paced_time-share pace 0 v (omega arith) in
        let (ss, went, stamped) =
          push_paced-Went pace p.ts_offset 0 (oldest_first older) ok out v w.starts_ok
            (omega (arith, total_bytes-oldest_first older)) (omega (arith, ahead, fits)) in
        let high : p.previous_pcr + (p.current_pcr - p.previous_pcr) + p.ts_offset
            ≡ p.current_pcr + p.ts_offset =
          omega (arith, ahead) in
        let result : Went (oldest_first older) (p.previous_pcr + p.ts_offset)
            (p.current_pcr + p.ts_offset) out
            ((push_paced scale d pace p.ts_offset 0 (oldest_first older) ok out).1) =
          (
            ss,
            went,
            subst (λ h. Stamped (p.previous_pcr + p.ts_offset) h (oldest_first older) ss) high
                (Stamped-weaken (paced_time scale pace 0 + p.ts_offset)
                  (p.previous_pcr + p.ts_offset) _ (oldest_first older) ss (omega (arith, start))
                  stamped),
          ) in
        subst
          (λ bs.
            Went (oldest_first older) (p.previous_pcr + p.ts_offset) (p.current_pcr + p.ts_offset)
              out ((drain_list scale d bs false p out).2)
            × ((drain_list scale d bs false p out).1.pending_buffers ≡ newest ∷ []))
          (sym e) (rw (seen, chosen) (result, refl))
