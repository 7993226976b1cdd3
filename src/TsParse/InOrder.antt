-- ===== src/TsParse/InOrder.antt =====
-- gst/gst-demux/mpegtsparse.c: the buffers go out in the order in which they came in.
use helia.Common.{
  ℕ, ◌+◌, ◌%◌, ◌^◌, ◌≡◌, refl, sym, ap, subst, ◌∙◌, Bool, true, false, not, ◌||◌, Option, none,
  some, inl, inr, List, [], ◌∷◌, ◌++◌, ◌==◌, if◌then◌else◌, length, arith, Bool-cases, append-nil,
  append_assoc,
}
use helia.Ts.Clock.{is_valid}
use helia.TsParse.{TimedBuffer, TsParser}
use helia.TsParse.Draining.{
  Downstream, Pace, oldest_first, pace_of, paced_time, stamp, push_paced, drain_paced, drain_list,
  drain_pending_buffers, prepare_src_pad, hold, hand_on, after_start, input_done,
}

-- Pads that take every buffer; `sent` are the bytes of those that they took.
pub record Delivers (d : Downstream) : Type 0 where
  pub sent : d.Out → List (List ℕ)
  pub starts_ok : d.is_ok d.ok ≡ true
  pub push_ok : (b : TimedBuffer) (out : d.Out) → d.is_ok ((d.push b out).0) ≡ true
  pub push_sent :
      (b : TimedBuffer) (out : d.Out) → sent ((d.push b out).1) ≡ sent out ++ b.bytes ∷ []
  pub start_sent : (n : ℕ) (t : Bool) (out : d.Out) → sent (d.start_stream n t out) ≡ sent out

abbrev pub all_bytes : List TimedBuffer → List (List ℕ)
all_bytes [] = []
all_bytes (b ∷ buffers) = b.bytes ∷ all_bytes buffers

all_bytes-snoc :
    (buffers : List TimedBuffer) (b : TimedBuffer)
    → all_bytes (buffers ++ b ∷ []) ≡ all_bytes buffers ++ b.bytes ∷ []
all_bytes-snoc [] b = refl
all_bytes-snoc (c ∷ buffers) b = ap (λ rest. c.bytes ∷ rest) (all_bytes-snoc buffers b)

pace_of-drains :
    (newest : TimedBuffer) (p : TsParser) → (pace : Pace) × (pace_of true newest p ≡ some pace)
unfolding pace_of
pace_of-drains newest p = elim (Bool-cases (not (is_valid p.previous_pcr))) [
  | inl e ↦ rw e (_, refl)
  | inr e ↦ rw e (_, refl)
]

-- What holds of both branches, each where it is taken.
if_cases :
    {A : Type 0} (P : A → Type 0) (b : Bool) (x y : A)
    → (b ≡ true → P x)
    → (b ≡ false → P y)
    → P (if b then x else y)
if_cases P true x y h l = h refl
if_cases P false x y h l = l refl

module _ (scale : ℕ → ℕ → ℕ → ℕ) (d : Downstream) (v : Delivers d) where
  open d use {Out, Flow, ok, is_ok, push}
  open v use {sent}

  -- What went out, and then what is pending.
  abbrev pub passed : TsParser → Out → List (List ℕ)
  passed p out = sent out ++ all_bytes (oldest_first p.pending_buffers)

  push_paced-sent :
      (pace : Pace) (ts_offset pos : ℕ) (buffers : List TimedBuffer) (flow : Flow) (out : Out)
      → is_ok flow ≡ true
      → (is_ok ((push_paced scale d pace ts_offset pos buffers flow out).0) ≡ true)
        × (sent ((push_paced scale d pace ts_offset pos buffers flow out).1)
            ≡ sent out ++ all_bytes buffers)
  unfolding push_paced
  push_paced-sent pace ts_offset pos [] flow out h = (h, sym (append-nil (sent out)))
  push_paced-sent pace ts_offset pos (b ∷ buffers) flow out h =
      let stamped = stamp (paced_time scale pace pos) ts_offset b in
      let (result, after) = push stamped out in
      let (fine, went) =
        push_paced-sent pace ts_offset ((pos + length b.bytes) % 2 ^ 64) buffers result after
          (v.push_ok stamped out) in
      rw (h, push_paced)
        (
          fine,
          went
              ∙ ap (λ s. s ++ all_bytes buffers) (v.push_sent stamped out)
              ∙ append_assoc (sent out) (b.bytes ∷ []) (all_bytes buffers),
        )

  drain_paced-passed :
      (pace : Option Pace) (drain_all : Bool) (newest : TimedBuffer) (older : List TimedBuffer)
      (p : TsParser) (out : Out)
      → p.pending_buffers ≡ newest ∷ older
      → (is_ok ((drain_paced scale d pace drain_all newest older p out).0) ≡ true)
        × (passed
              ((drain_paced scale d pace drain_all newest older p out).1)
              ((drain_paced scale d pace drain_all newest older p out).2)
            ≡ passed p out)
  drain_paced-passed none drain_all newest older p out e = (v.starts_ok, refl)
  drain_paced-passed (some pace) true newest older p out e =
      let (fine, went) =
        push_paced-sent pace p.ts_offset 0 (oldest_first (newest ∷ older)) ok out v.starts_ok in
      (fine, append-nil _ ∙ went ∙ ap (λ bs. sent out ++ all_bytes (oldest_first bs)) (sym e))
  drain_paced-passed (some pace) false newest older p out e =
      let (fine, went) =
        push_paced-sent pace p.ts_offset 0 (oldest_first older) ok out v.starts_ok in
      (
        fine,
        ap (λ s. s ++ newest.bytes ∷ []) went
            ∙ append_assoc (sent out) (all_bytes (oldest_first older)) (newest.bytes ∷ [])
            ∙ ap (λ bs. sent out ++ bs) (sym (all_bytes-snoc (oldest_first older) newest))
            ∙ ap (λ bs. sent out ++ all_bytes (oldest_first bs)) (sym e),
      )

  -- A result that went well, with the same bytes passed and pending, and nothing pending if all drained.
  abbrev Drained : Bool → List (List ℕ) → Flow × TsParser × Out → Type 0
  Drained drain_all before (flow, p, out) =
      (is_ok flow ≡ true) × (passed p out ≡ before) × (drain_all ≡ true → p.pending_buffers ≡ [])

  drain_list-Drained :
      (buffers : List TimedBuffer) (drain_all : Bool) (p : TsParser) (out : Out)
      → p.pending_buffers ≡ buffers
      → Drained drain_all (passed p out) (drain_list scale d buffers drain_all p out)
  drain_list-Drained [] drain_all p out e = (v.starts_ok, refl, λ t. e)
  drain_list-Drained (newest ∷ older) true p out e =
      let (pace, f) = pace_of-drains newest p in
      let (fine, same) = drain_paced-passed (some pace) true newest older p out e in
      elim (Bool-cases (is_valid p.current_pcr)) [
        | inl seen ↦ rw (seen, f) (fine, same, λ t. refl)
        | inr unseen ↦ rw (unseen, f) (fine, same, λ t. refl)
      ]
  drain_list-Drained (newest ∷ older) false p out e = elim (Bool-cases (is_valid p.current_pcr)) [
    | inl seen ↦
        let (fine, same) = drain_paced-passed (pace_of false newest p) false newest older p out e in
        rw seen (fine, same, λ t. absurd (ground (arith, t)))
    | inr unseen ↦ rw unseen (v.starts_ok, refl, λ t. absurd (ground (arith, t)))
  ]

  hand_on-Drained :
      (held : Bool) (b : TimedBuffer) (before : List (List ℕ)) (r : Flow × TsParser × Out)
      → Drained (not held) before r
      → (is_ok ((hand_on scale d held b r).0) ≡ true)
        × (passed ((hand_on scale d held b r).1) ((hand_on scale d held b r).2)
            ≡ (if held then before else before ++ b.bytes ∷ []))
  hand_on-Drained true b before (flow, p, out) (fine, same, emptied) = rw fine (fine, same)
  hand_on-Drained false b before (flow, p, out) (fine, same, emptied) =
      let all_out = emptied refl in
      let went : sent out ≡ before =
        sym (append-nil (sent out))
        ∙ ap (λ bs. sent out ++ all_bytes (oldest_first bs)) (sym all_out)
        ∙ same in
      rw fine (
        v.push_ok b out,
        ap (λ bs. sent ((push b out).1) ++ all_bytes (oldest_first bs)) all_out
            ∙ append-nil (sent ((push b out).1))
            ∙ v.push_sent b out
            ∙ ap (λ s. s ++ b.bytes ∷ []) went,
      )

  -- A result that went well and passed the bytes.
  abbrev Passed : List (List ℕ) → Flow × TsParser × Out → Type 0
  Passed after r = (is_ok (r.0) ≡ true) × (passed (r.1) (r.2) ≡ after)

  after_start-Passed :
      (held : Bool) (b : TimedBuffer) (p : TsParser) (out : Out)
      → (not held ≡ true → not p.set_timestamps ≡ true)
      → Passed
          (if held then passed p out else passed p out ++ b.bytes ∷ [])
          (after_start scale d held b (true, p, out))
  unfolding drain_pending_buffers
  after_start-Passed held b p out h =
      let (fine, same, emptied) =
        drain_list-Drained p.pending_buffers (not p.set_timestamps) p out refl in
      hand_on-Drained held b (passed p out)
        (drain_list scale d p.pending_buffers (not p.set_timestamps) p out)
        (fine, same, λ t. emptied (h t))

  prepared-Passed :
      (held : Bool) (packet_size : ℕ) (b : TimedBuffer) (p : TsParser) (out : Out)
      → (held ≡ false → (p.first ≡ false) × (p.set_timestamps ≡ false))
      → Passed
          (if held then passed p out else passed p out ++ b.bytes ∷ [])
          (after_start scale d held b (prepare_src_pad scale d packet_size p out))
  unfolding prepare_src_pad
  prepared-Passed held packet_size b p out h =
      let goal = if held then passed p out else passed p out ++ b.bytes ∷ [] in
      let not_timed : not held ≡ true → not p.set_timestamps ≡ true =
        λ t. ap not ((h (ground (arith, t))).1) in
      if_cases (λ r. Passed goal (after_start scale d held b r)) (not p.first) (true, p, out) _
        (λ e. after_start-Passed held b p out not_timed)
        (λ e.
          if_cases (λ r. Passed goal (after_start scale d held b r)) (packet_size == 0)
            (false, p, out) _
            (λ f. elim (Bool-cases held) [
              | inl kept ↦ rw kept (v.starts_ok, refl)
              | inr passing ↦ absurd (ground (arith, e, (h passing).0))
            ])
            (λ f.
              let started : TsParser = record p { first = false } in
              let begun = d.start_stream packet_size p.set_timestamps out in
              let same : passed started begun ≡ passed p out =
                ap (λ s. s ++ all_bytes (oldest_first p.pending_buffers))
                  (v.start_sent packet_size p.set_timestamps out) in
              subst
                (λ bs.
                  Passed (if held then bs else bs ++ b.bytes ∷ [])
                    (after_start scale d held b (true, started, begun)))
                same (after_start-Passed held b started begun not_timed)))

  -- With pads that take every buffer, the element loses none and swaps none: what went out and what is
  -- pending is, after a buffer came in, what it was before and the buffer, whether times are set or not,
  -- before and after the stream starts.
  pub input_done-Passed :
      (packet_size : ℕ) (b : TimedBuffer) (p : TsParser) (out : Out)
      → Passed (passed p out ++ b.bytes ∷ []) (input_done scale d packet_size b p out)
  unfolding input_done
  input_done-Passed packet_size b p out = elim (Bool-cases (p.set_timestamps || p.first)) [
    | inl kept ↦
        let holding : passed (hold b p) out ≡ passed p out ++ b.bytes ∷ [] =
          ap (λ bs. sent out ++ bs) (all_bytes-snoc (oldest_first p.pending_buffers) b)
          ∙ sym (
              append_assoc (sent out) (all_bytes (oldest_first p.pending_buffers))
                (b.bytes ∷ [])) in
        rw kept (
          subst
            (λ bs.
              Passed bs
                (after_start scale d true b (prepare_src_pad scale d packet_size (hold b p) out)))
            holding
            (prepared-Passed true packet_size b (hold b p) out (λ t. absurd (ground (arith, t)))))
    | inr passing ↦ rw passing (
        prepared-Passed false packet_size b p out
          (λ t. (ground (arith, passing), ground (arith, passing))))
  ]
