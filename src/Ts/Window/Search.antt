-- ===== src/Ts/Window/Search.antt =====
-- gst/gst-demux/mpegtspacketizer.c: what the loops over the mapped bytes find.
use helia.Common.{
  ℕ, zero, suc, ◌+◌, ◌*◌, ◌≤◌, ◌<◌, ◌≡◌, refl, ◌⊎◌, ◌↔◌, inl, inr, Bool, true, false, some, List,
  [], ◌∷◌, ◌==◌, length, get_elem?, arith, All, subst,
}
use native.Mathlib.Decide.{dec_lt}
use helia.Parsing.{byte}
use helia.Parsing.Gives.{Gives, Gives-parsed, Gives-bind, Gives-if, Gives-weaken}
use helia.Ts.Window.{
  packet_sync_byte, all_sync, fitting_size, psizes, discover_loop, sync_loop, max_packetsize,
}

-- A byte within the memory, with its place.
pub Gives-at :
    (memory : List ℕ) (k : ℕ)
    → k < length memory
    → Gives (λ (b : ℕ). get_elem? memory k ≡ some b) (byte memory k)
Gives-at [] k l = absurd (omega arith)
Gives-at (b ∷ memory) zero l = Gives-parsed b refl
Gives-at (b ∷ memory) (suc k) l = Gives-at memory k (omega arith)

-- Three sync bytes, `size` apart.
abbrev pub Synced : List ℕ → ℕ → ℕ → Type 0
Synced bytes size i =
    (get_elem? bytes i ≡ some packet_sync_byte)
    × (get_elem? bytes (i + size) ≡ some packet_sync_byte)
    × (get_elem? bytes (i + size + size) ≡ some packet_sync_byte)

pub all_sync-Gives :
    (bytes : List ℕ) (size i : ℕ)
    → i + size + size < length bytes
    → Gives (λ (b : Bool). (b ≡ true) ↔ Synced bytes size i) (all_sync bytes size 3 i)
unfolding all_sync
all_sync-Gives bytes size i h = Gives-bind _ _ (Gives-at bytes i (omega arith)) λ a p.
    Gives-if (a == packet_sync_byte) _ _
      (λ e. Gives-bind _ _ (Gives-at bytes (i + size) (omega arith)) λ b q.
        Gives-if (b == packet_sync_byte) _ _
          (λ f. Gives-bind _ _ (Gives-at bytes (i + size + size) h) λ c r.
            Gives-if (c == packet_sync_byte) _ _
              (λ g. Gives-parsed true (
                λ t. (ground (arith, p, e), ground (arith, q, f), ground (arith, r, g)),
                λ t. refl,
              ))
              λ g. Gives-parsed false (λ t. ground (arith, t), λ t. ground (arith, r, g, t.2)))
          λ f. Gives-parsed false (λ t. ground (arith, t), λ t. ground (arith, q, f, t.1)))
      λ e. Gives-parsed false (λ t. ground (arith, t), λ t. ground (arith, p, e, t.0))

-- Where the search from `i` over `rounds` places ended: at the first place with three sync bytes, or
-- after all of them.
pub record Searched (bytes : List ℕ) (size i rounds : ℕ) (r : ℕ × Bool) : Type 0 where
  pub from : i ≤ r.0
  pub to : r.0 ≤ i + rounds
  pub hit : r.1 ≡ true → Synced bytes size r.0 × (r.0 < i + rounds)
  pub miss : r.1 ≡ false → r.0 ≡ i + rounds
  pub first : (k : ℕ) → i ≤ k → k < r.0 → ¬ Synced bytes size k

pub sync_loop-Searched :
    (bytes : List ℕ) (size rounds i : ℕ)
    → i + rounds + size + size ≤ length bytes
    → Gives (Searched bytes size i rounds) (sync_loop bytes size rounds i)
unfolding sync_loop
sync_loop-Searched bytes size zero i h =
    Gives-parsed (i, false)
      (record {
        from = omega arith;
        to = omega arith;
        hit = λ t. ground (arith, t);
        miss = λ t. omega arith;
        first = λ k a b. absurd (omega (arith, a, b));
      })
sync_loop-Searched bytes size (suc rounds) i h =
    Gives-bind _ _ (all_sync-Gives bytes size i (omega arith)) λ b m.
      Gives-if b _ _
        (λ e.
          Gives-parsed (i, true)
            (record {
              from = omega arith;
              to = omega arith;
              hit = λ t. (m.0 e, omega arith);
              miss = λ t. ground (arith, t);
              first = λ k a c. absurd (omega (arith, a, c));
            }))
        λ e. Gives-weaken _ (sync_loop-Searched bytes size rounds (i + 1) (omega arith)) λ r s.
          record {
            from = omega (arith, s.from);
            to = omega (arith, s.to);
            hit = λ t. ((s.hit t).0, omega (arith, (s.hit t).1));
            miss = λ t. omega (arith, s.miss t);
            first = λ k a c t. elim (dec_lt i k) [
              | yes p ↦ s.first k (omega arith) c t
              | no p ↦
                  let same : k ≡ i = omega (arith, p) in
                  ground (arith, e, m.1 (subst (λ (j : ℕ). Synced bytes size j) same t))
            ];
          }

-- A size from a list whose packets the search fits.
abbrev pub Fitting : List ℕ → ℕ → ℕ → List ℕ → Type 0
Fitting bytes i p [] = ⊥
Fitting bytes i p (q ∷ qs) = ((p ≡ q) × Synced bytes q (i + q)) ⊎ Fitting bytes i p qs

-- The size that was found, or 0 if none fits.
abbrev pub Chosen : List ℕ → ℕ → List ℕ → ℕ → Type 0
Chosen bytes i sizes p =
    Fitting bytes i p sizes ⊎ ((p ≡ 0) × All (λ (q : ℕ). ¬ Synced bytes q (i + q)) sizes)

pub fitting_size-Chosen :
    (bytes : List ℕ) (i : ℕ) (sizes : List ℕ)
    → All (λ (q : ℕ). i + q + q + q < length bytes) sizes
    → Gives (Chosen bytes i sizes) (fitting_size bytes i sizes)
unfolding fitting_size
fitting_size-Chosen bytes i [] h = Gives-parsed 0 (inr (refl, tt))
fitting_size-Chosen bytes i (q ∷ qs) (h, hs) =
    Gives-bind _ _ (all_sync-Gives bytes q (i + q) h) λ b m.
      Gives-if b _ _ (λ e. Gives-parsed q (inl (inl (refl, m.0 e))))
        λ e. Gives-weaken _ (fitting_size-Chosen bytes i qs hs) λ p c. elim c [
          | inl f ↦ inl (inr f)
          | inr (z, none_of) ↦ inr (z, (λ t. ground (arith, e, m.1 t), none_of))
        ]

-- A packet size for which four sync bytes stand from a place on.
abbrev pub FoundAt : List ℕ → ℕ → ℕ → Type 0
FoundAt bytes i p = (get_elem? bytes i ≡ some packet_sync_byte) × Fitting bytes i p psizes

-- Where the search for a packet size ended: at four sync bytes, or after all places.
pub record Discovered (bytes : List ℕ) (i rounds : ℕ) (r : ℕ × ℕ) : Type 0 where
  pub from : i ≤ r.0
  pub to : r.0 ≤ i + rounds
  pub outcome : ((r.0 < i + rounds) × FoundAt bytes (r.0) (r.1)) ⊎ ((r.0 ≡ i + rounds) × (r.1 ≡ 0))

Discovered-later :
    (bytes : List ℕ) (i rounds : ℕ) (r : ℕ × ℕ)
    → Discovered bytes (i + 1) rounds r
    → Discovered bytes i (suc rounds) r
Discovered-later bytes i rounds r d = record {
  from = omega (arith, d.from);
  to = omega (arith, d.to);
  outcome = elim d.outcome [
    | inl (l, f) ↦ inl (omega (arith, l), f)
    | inr (l, z) ↦ inr (omega (arith, l), z)
  ];
}

pub discover_loop-Discovered :
    (bytes : List ℕ) (rounds i : ℕ)
    → i + rounds + 3 * max_packetsize ≤ length bytes
    → Gives (Discovered bytes i rounds) (discover_loop bytes rounds i)
unfolding discover_loop
discover_loop-Discovered bytes zero i h =
    Gives-parsed (i, 0)
      (record { from = omega arith; to = omega arith; outcome = inr (omega arith, refl) })
discover_loop-Discovered bytes (suc rounds) i h =
    let later =
      Gives-weaken _ (discover_loop-Discovered bytes rounds (i + 1) (omega arith))
        (Discovered-later bytes i rounds) in
    Gives-bind _ _ (Gives-at bytes i (omega arith)) λ b m.
      Gives-if (b == packet_sync_byte) _ _
        (λ e. Gives-bind _ _ (fitting_size-Chosen bytes i psizes (omega arith)) λ p c.
          Gives-if (p == 0) _ _ (λ z. later)
            λ z.
              Gives-parsed (i, p)
                (record {
                  from = omega arith;
                  to = omega arith;
                  outcome = inl (
                    omega arith,
                    (
                      ground (arith, m, e),
                      elim c [ inl f ↦ f | inr (w, misses) ↦ absurd (ground (arith, z, w)) ],
                    ),
                  );
                }))
        λ e. later
