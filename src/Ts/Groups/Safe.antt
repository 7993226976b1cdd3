-- ===== src/Ts/Groups/Safe.antt =====
-- gst/gst-demux/mpegtspacketizer.c: recording an observation reads and writes only what is there.
use helia.Common.{
  if-holds, ℕ, ◌*◌, ◌/◌, ◌≡◌, refl, ◌∙◌, inl, inr, Bool, true, false, not, ◌&&◌, Option, some, List,
  [], ◌∷◌, ltb, leb, All,
}
use helia.Parsing.Gives.{Gives, Gives-parsed, Gives-bind, Gives-if, Gives-weaken}
use helia.Ts.Window.{sub64}
use helia.Ts.Groups.{Observation, Group, Current, pcr_msecond, pcr_max_value, add64}
use helia.Ts.Groups.Estimate.{
  Rate, is_current, previous_rate, settle, estimate_wrap, estimate_reset, estimate,
  reevaluate_after, reevaluate,
}
use helia.Ts.Groups.Recording.{Place, observed, continues, apart, find_place}
use helia.Ts.Groups.Sound.{IsGroup, Present, IsCurrent, Keeps, values_at-Gives, pending_at-Gives}

-- A place for an observation: a group that has values, if any.
abbrev pub IsPlace : Place → List Group → Type 0
IsPlace observed groups = Unit {0}
IsPlace (continues g) groups = IsGroup g × Present g.number groups
IsPlace (apart prev) groups = Unit {0}

later-IsPlace :
    (place : Place) (g : Group) (groups : List Group)
    → IsPlace place groups
    → IsPlace place (g ∷ groups)
later-IsPlace observed g groups p = tt
later-IsPlace (continues h) g groups (k, p) = (k, inr p)
later-IsPlace (apart prev) g groups p = tt

pub find_place-Gives :
    (pcr offset : ℕ) (prev : Option ℕ) (groups : List Group)
    → All IsGroup groups
    → Gives (λ place. IsPlace place groups) (find_place pcr offset prev groups)
unfolding find_place
find_place-Gives pcr offset prev [] h = Gives-parsed (apart prev) tt
find_place-Gives pcr offset prev (g ∷ groups) (h, hs) =
    Gives-bind _ _ (values_at-Gives g h) (λ last u.
      Gives-if (ltb offset g.first_offset) _ _ (λ e. Gives-parsed (apart prev) tt)
        (λ e.
          Gives-if (leb offset (add64 last.offset g.first_offset)) _ _
            (λ e. Gives-parsed observed tt)
            (λ e.
              Gives-if
                (not g.closed && leb (sub64 (sub64 pcr g.first_pcr) last.pcr) (100 * pcr_msecond)) _
                _ (λ e. Gives-parsed (continues g) (h, inl refl))
                (λ e.
                  Gives-weaken (find_place pcr offset (some g.number) groups)
                    (find_place-Gives pcr offset (some g.number) groups hs)
                    (λ place p. later-IsPlace place g groups p)))))

-- What an estimate leaves as it was.
abbrev Estimated : Group → Group → Group × Group → Type 0
Estimated prev cur r =
    IsGroup (r.0) × IsGroup (r.1) × (r.0.number ≡ prev.number) × (r.1.number ≡ cur.number)

settle-Estimated :
    (close sure : Bool) (guess : ℕ) (prev cur : Group)
    → IsGroup prev
    → IsGroup cur
    → Estimated prev cur (prev, settle close sure guess cur)
settle-Estimated false sure guess prev cur h k = (h, k, refl, refl)
settle-Estimated true sure guess prev cur h k = (h, k, refl, refl)

module _ (scale : ℕ → ℕ → ℕ → ℕ) (within : ℕ → ℕ → ℕ → Bool) where
  previous_rate-Gives :
      (c : Current) (prev : Group)
      → IsCurrent c
      → IsGroup prev
      → Gives (λ r. Unit {0}) (previous_rate scale within c prev)
  unfolding previous_rate
  previous_rate-Gives c prev v h = Gives-bind _ _ (values_at-Gives prev h) (λ last u.
      Gives-if (is_current c.group prev.number) _ _
        (λ e. Gives-bind _ _ (pending_at-Gives c c.last v.last_place) (λ o u. Gives-parsed _ tt))
        (λ e. Gives-parsed _ tt))

  estimate_wrap-Estimated :
      (r : Rate) (prev cur : Group) (last : Observation)
      → IsGroup prev
      → IsGroup cur
      → Estimated prev cur (estimate_wrap scale within r prev cur last)
  unfolding estimate_wrap
  estimate_wrap-Estimated r prev cur last h k = settle-Estimated _ _ _ prev cur h k

  estimate_reset-Estimated :
      (r : Rate) (prev cur : Group)
      → IsGroup prev
      → IsGroup cur
      → Estimated prev cur (estimate_reset scale within r prev cur)
  unfolding estimate_reset
  estimate_reset-Estimated r prev cur h k = (h, k, refl, refl)

  estimate-Gives :
      (c : Current) (prev cur : Group)
      → IsCurrent c
      → IsGroup prev
      → IsGroup cur
      → Gives (Estimated prev cur) (estimate scale within c prev cur)
  unfolding estimate
  estimate-Gives c prev cur v h k =
      Gives-if (ltb cur.first_pcr prev.first_pcr) _ _
        (λ e. Gives-bind _ _ (previous_rate-Gives c prev v h) (λ r u.
          Gives-bind _ _ (values_at-Gives cur k) (λ last u. Gives-parsed _ (
            if-holds (Estimated prev cur)
              (ltb (pcr_max_value * 9 / 10) (sub64 r.prevpcr cur.first_pcr))
              (estimate_wrap scale within r prev cur last) (estimate_reset scale within r prev cur)
              (estimate_wrap-Estimated r prev cur last h k)
              (estimate_reset-Estimated r prev cur h k)))))
        (λ e. Gives-parsed _ (h, k, refl, refl))

  reevaluate_after-Gives :
      (c : Current) (prev : Group) (groups : List Group)
      → IsCurrent c
      → IsGroup prev
      → All IsGroup groups
      → Gives (Keeps (prev ∷ groups)) (reevaluate_after scale within c prev groups)
  unfolding reevaluate_after
  reevaluate_after-Gives c prev [] v h hs =
      Gives-parsed _ (record { sound = (h, tt); present = λ number p. p })
  reevaluate_after-Gives c prev (cur ∷ groups) v h (k, ks) =
      Gives-bind _ _
        (Gives-if {Q = Estimated prev cur} cur.estimated _ _ (λ e. estimate-Gives c prev cur v h k)
          (λ e. Gives-parsed _ (h, k, refl, refl)))
        (λ r (a, b, d, f). Gives-bind _ _ (reevaluate_after-Gives c r.1 groups v b ks) (λ rest s.
          Gives-parsed _ (record {
            sound = (a, s.sound);
            present = λ number p. elim p [
              | inl here ↦ inl (d ∙ here)
              | inr later ↦ inr (
                  s.present number
                    (elim later [ inl here ↦ inl (f ∙ here) | inr there ↦ inr there ]))
            ];
          })))

  pub reevaluate-Gives :
      (c : Current) (groups : List Group)
      → IsCurrent c
      → All IsGroup groups
      → Gives (Keeps groups) (reevaluate scale within c groups)
  unfolding reevaluate
  reevaluate-Gives c [] v hs = Gives-parsed [] (record { sound = tt; present = λ number p. p })
  reevaluate-Gives c (cur ∷ groups) v (h, hs) =
      Gives-if cur.estimated _ _
        (λ e. Gives-parsed _ (record { sound = (h, hs); present = λ number p. p }))
        (λ e. reevaluate_after-Gives c cur groups v h hs)
