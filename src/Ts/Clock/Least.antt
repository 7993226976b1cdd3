-- ===== src/Ts/Clock/Least.antt =====
-- gst/gst-demux/mpegtspacketizer.c: the minimum that is kept of the window is that of its values.
use helia.Common.{
  ℕ, zero, suc, ◌+◌, ◌-◌, ◌^◌, ◌≤◌, ◌<◌, ◌≡◌, refl, sym, subst, ◌∙◌, ◌⊎◌, inl, inr, true, false,
  ltb, ◌==◌, if◌then◌else◌, arith, Bool-cases,
}
use native.Mathlib.Decide.{dec_lt}
use helia.Parsing.Gives.{Gives, Gives-parsed, Gives-bind, Gives-if, Gives-weaken}
use helia.Ts.Clock.{Pcr, max_window, signed_key, signed_less, window_at, set_window, find_min}

-- A least value of the first `n` places, in the order of gint64.
pub record IsLeast (m n : ℕ) (window : ℕ → ℕ) : Type 0 where
  pub below : (k : ℕ) → k < n → signed_key m ≤ signed_key (window k)
  pub place : ℕ
  pub within : place < n
  pub there : window place ≡ m

-- The window: it is filled from the start, then its oldest value is replaced; `window_min` is a least
-- of the values that are in it.
pub record IsWindow (pcr : Pcr) : Type 0 where
  pub words : (k : ℕ) → pcr.window k < 2 ^ 64
  pub filling :
      pcr.window_filling ≡ true
      → (pcr.window_pos < max_window)
        × ((pcr.window_pos ≡ 0) ⊎ IsLeast pcr.window_min pcr.window_pos pcr.window)
  pub full :
      pcr.window_filling ≡ false
      → (pcr.window_pos < pcr.window_size)
        × (pcr.window_size ≤ max_window)
        × IsLeast pcr.window_min pcr.window_size pcr.window

-- The window with a value stored at a place.
abbrev pub stored_at : ℕ → ℕ → (ℕ → ℕ) → ℕ → ℕ
stored_at pos delta window k = if k == pos then delta else window k

pub window_at-Gives :
    (window : ℕ → ℕ) (k : ℕ) → k < max_window → Gives (λ (v : ℕ). v ≡ window k) (window_at window k)
window_at-Gives window k h =
    Gives-if (ltb k max_window) _ _ (λ e. Gives-parsed (window k) refl)
      λ e. absurd (ground (arith, e, h))

pub set_window-Gives :
    (window : ℕ → ℕ) (pos delta : ℕ)
    → pos < max_window
    → Gives (λ (after : ℕ → ℕ). after ≡ stored_at pos delta window) (set_window window pos delta)
set_window-Gives window pos delta h =
    Gives-if (ltb pos max_window) _ _ (λ e. Gives-parsed (stored_at pos delta window) refl)
      λ e. absurd (ground (arith, e, h))

-- Where the loop for a new minimum ends.
record Found (window : ℕ → ℕ) (old rounds i min r : ℕ) : Type 0 where
  outcome :
      ((k : ℕ) × (k < i + rounds) × (window k ≡ old) × (r ≡ old))
      ⊎ (((k : ℕ) → i ≤ k → k < i + rounds → signed_key r ≤ signed_key (window k))
          × (signed_key r ≤ signed_key min)
          × ((r ≡ min) ⊎ ((k : ℕ) × (k < i + rounds) × (window k ≡ r))))

find_min-Found :
    (window : ℕ → ℕ) (old rounds i min : ℕ)
    → i + rounds ≤ max_window
    → Gives (Found window old rounds i min) (find_min window old rounds i min)
unfolding find_min
find_min-Found window old zero i min h =
    Gives-parsed min
      (record { outcome = inr (λ k a b. absurd (omega arith), omega arith, inl refl) })
find_min-Found window old (suc rounds) i min h =
    Gives-bind _ _ (window_at-Gives window i (omega arith)) λ v e.
      Gives-if (v == old) _ _
        (λ f.
          Gives-parsed old (record { outcome = inl (i, omega arith, ground (arith, e, f), refl) }))
        λ f.
          Gives-weaken _
            (find_min-Found window old rounds (i + 1) (if signed_less v min then v else min)
              (omega arith))
            λ r s. record {
              outcome = elim s.outcome [
                | inl (k, l, w, z) ↦ inl (k, omega (arith, l), w, z)
                | inr (below, least, from) ↦
                    let here : signed_key r ≤ signed_key v = ground (arith, least) in
                    inr (
                      λ k a b. elim (dec_lt i k) [
                        | yes p ↦ below k (omega (arith, p)) (omega (arith, b))
                        | no p ↦
                            let same : k ≡ i = omega (arith, p, a) in
                            subst (λ (j : ℕ). signed_key r ≤ signed_key (window j)) (sym same)
                              (subst (λ (x : ℕ). signed_key r ≤ signed_key x) e here)
                      ],
                      ground (arith, least),
                      elim from [
                        | inl chosen ↦ elim (Bool-cases (signed_less v min)) [
                          | inl smaller ↦
                              inr (i, omega arith, sym e ∙ sym (ground (arith, chosen, smaller)))
                          | inr larger ↦ inl (ground (arith, chosen, larger))
                        ]
                        | inr (k, l, w) ↦ inr (k, omega (arith, l), w)
                      ],
                    )
              ];
            }

-- The order of gint64 tells words apart.
signed_key-injective : (a b : ℕ) → a < 2 ^ 64 → b < 2 ^ 64 → signed_key a ≡ signed_key b → a ≡ b
signed_key-injective a b h l e = omega (arith, e)

-- The loop over the whole window finds a least value, if the old minimum was one.
pub find_min-IsLeast :
    (window : ℕ → ℕ) (old size : ℕ)
    → 0 < size
    → size ≤ max_window
    → ((k : ℕ) → window k < 2 ^ 64)
    → ((k : ℕ) → k < size → signed_key old ≤ signed_key (window k))
    → Gives (λ (m : ℕ). IsLeast m size window) (find_min window old size 0 (2 ^ 63 - 1))
find_min-IsLeast window old size some_place fits words below =
    Gives-weaken _ (find_min-Found window old size 0 (2 ^ 63 - 1) (omega arith)) λ r s.
      elim s.outcome [
        | inl (k, l, w, z) ↦ record {
          below =
              λ j h. subst (λ (m : ℕ). signed_key m ≤ signed_key (window j)) (sym z) (below j h);
          place = k;
          within = omega (arith, l);
          there = w ∙ sym z;
        }
        | inr (least, small, from) ↦ elim from [
          | inl top ↦ record {
            below = λ j h. least j (omega arith) (omega (arith, h));
            place = 0;
            within = some_place;
            there =
                signed_key-injective (window 0) r (words 0) (omega (arith, top))
                  (omega (arith, least 0 (omega arith) (omega (arith, some_place)), top));
          }
          | inr (k, l, w) ↦ record {
            below = λ j h. least j (omega arith) (omega (arith, h));
            place = k;
            within = omega (arith, l);
            there = w;
          }
        ]
      ]
