-- ===== src/Cam/Reading.antt =====
-- gst/gst-dvb/camtransport.c: reading a TPDU stays within the buffer of 1024 bytes.
use helia.Common.{
  ℕ, ◌-◌, ◌≤◌, ◌<◌, ◌≡◌, ◌≢◌, refl, ap, subst, ◌∙◌, ◌⊎◌, inl, inr, false, Option, some, List, [],
  ◌∷◌, arith, ltb, length, take, drop, get_elem?, lookup, length-append, length-drop, zero, suc,
  Option-cases, Bool-cases,
}
use helia.Cam.State.{
  CamReturn, ok, failed, transport_error, transport_timeout, Input, timeout, read_failure, received,
  Cam, CamTlConnection,
}
use helia.Cam.Monad.{Run, done, fault, stuck, M, ◌>>=◌, checked}
use helia.Cam.LengthField.RoundTrip.{read_length_field_total}
use helia.Cam.Receive.{tl_read, accept_tpdu, read_tpdu_next}

-- A run that does not fault, and ends as told if it ends.
pub record Ends {A : Type 0} (Q : A → Cam → Type 0) (r : Run (A × Cam)) : Type 0 where
  pub no_fault : r ≢ fault
  pub result : (a : A) (c : Cam) → r ≡ done (a, c) → Q a c

abbrev outcome : {A : Type 0} → A × Cam → Run (A × Cam) → A × Cam
outcome p (done q) = q
outcome p fault = p
outcome p stuck = p

Ends-done : {A : Type 0} {Q : A → Cam → Type 0} (a : A) (c : Cam) → Q a c → Ends Q (done (a, c))
Ends-done {A} {Q} a c q = record {
  no_fault = λ e. ground arith;
  result = λ b d e. subst (λ (p : A × Cam). Q (p.0) (p.1)) (ap (outcome (a, c)) e) q;
}

Ends-continue :
    {A B : Type 0} {Q : A → Cam → Type 0} {R : B → Cam → Type 0} (r : Run (A × Cam)) (f : A → M B)
    → Ends Q r
    → ((a : A) (d : Cam) → Q a d → Ends R (f a d))
    → Ends R (elim r [ done (a, d) ↦ f a d | fault ↦ fault | stuck ↦ stuck ])
Ends-continue (done (a, d)) f h k = k a d (h.result a d refl)
Ends-continue fault f h k = absurd (h.no_fault refl)
Ends-continue stuck f h k = record { no_fault = λ e. ground arith; result = λ a d e. ground arith }

Ends-bind :
    {A B : Type 0} {Q : A → Cam → Type 0} {R : B → Cam → Type 0} (m : M A) (f : A → M B) (c : Cam)
    → Ends Q (m c)
    → ((a : A) (d : Cam) → Q a d → Ends R (f a d))
    → Ends R ((m >>= f) c)
Ends-bind m f c h k = Ends-continue (m c) f h k

-- The buffer keeps its size, and what was read is within it.
pub record Buffered (ret : CamReturn) (c : Cam) : Type 0 where
  pub whole : length c.tl.buffer ≡ 1024
  pub read : failed ret ≡ false → c.tl.buffer_size ≤ 1024

length-take_bound : (n : ℕ) (xs : List ℕ) → length (take n xs) ≤ n
length-take_bound zero xs = omega arith
length-take_bound (suc n) [] = omega arith
length-take_bound (suc n) (x ∷ xs) = omega (arith, length-take_bound n xs)

Input-cases :
    (i : Input) → (i ≡ timeout) ⊎ ((i ≡ read_failure) ⊎ ((bytes : List ℕ) × (i ≡ received bytes)))
Input-cases timeout = inl refl
Input-cases read_failure = inr (inl refl)
Input-cases (received bytes) = inr (inr (bytes, refl))

tl_read-Buffered : (c : Cam) → length c.tl.buffer ≡ 1024 → Ends Buffered (tl_read c)
unfolding tl_read
tl_read-Buffered c h = elim (Input-cases (c.os.read c.log)) [
  | inl e ↦ rw e (Ends-done transport_timeout _ (record { whole = h; read = λ f. ground arith }))
  | inr (inl e) ↦
      rw e (Ends-done transport_error _ (record { whole = h; read = λ f. ground arith }))
  | inr (inr (bytes, e)) ↦ rw e (
      Ends-done ok _ (record {
        whole =
            length-append (take 1024 bytes) (drop (length (take 1024 bytes)) c.tl.buffer)
            ∙ omega (
              arith,
              length-drop (length (take 1024 bytes)) c.tl.buffer,
              h,
              length-take_bound 1024 bytes,
            );
        read = λ f. length-take_bound 1024 bytes;
      }))
]

-- A byte within a list.
get_elem?_within : (xs : List ℕ) (k : ℕ) → k < length xs → (b : ℕ) × (get_elem? xs k ≡ some b)
get_elem?_within [] k h = absurd (omega arith)
get_elem?_within (x ∷ xs) zero h = (x, refl)
get_elem?_within (x ∷ xs) (suc k) h = get_elem?_within xs k (omega arith)

Ends-checked :
    {A : Type 0} {Q : A → Cam → Type 0} (o : Option A) (a : A) (c : Cam)
    → o ≡ some a
    → Q a c
    → Ends Q (checked o c)
Ends-checked o a c e q = rw (e, checked) (Ends-done a c q)

-- What a call leaves, whatever it gives.
abbrev Whole : {A : Type 0} → A → Cam → Type 0
Whole a c = length c.tl.buffer ≡ 1024

accept_tpdu-Whole :
    (connection : CamTlConnection) (m n : ℕ) (c : Cam)
    → length c.tl.buffer ≡ 1024
    → 4 ≤ c.tl.buffer_size
    → c.tl.buffer_size ≤ 1024
    → Ends Whole (accept_tpdu connection m n c)
unfolding accept_tpdu
accept_tpdu-Whole connection m n c h least most =
    let (sb, e) = get_elem?_within c.tl.buffer (c.tl.buffer_size - 4) (omega (arith, h, most)) in
    let (status, d) =
      get_elem?_within c.tl.buffer (c.tl.buffer_size - 1) (omega (arith, h, least, most)) in
    record { no_fault = λ f. ground (arith, e, d); result = λ a c' f. ground (arith, e, d) }

-- Whatever the module sends, from a buffer of 1024 bytes the reading of a TPDU does not fault, and
-- where it ends the buffer has 1024 bytes.
pub read_tpdu_next_safe :
    (c : Cam)
    → length c.tl.buffer ≡ 1024
    → Ends (λ (result : CamReturn × ℕ) (d : Cam). length d.tl.buffer ≡ 1024) (read_tpdu_next c)
unfolding read_tpdu_next
read_tpdu_next_safe c h = Ends-bind tl_read _ c (tl_read-Buffered c h) λ ret d v.
    elim (Bool-cases (failed ret)) [
      | inl e ↦ rw e (Ends-done (ret, 0) d v.whole)
      | inr e ↦ rw e (elim (Bool-cases (ltb d.tl.buffer_size 4)) [
        | inl b ↦ rw b (Ends-done (transport_error, 0) d v.whole)
        | inr b ↦
            let (id, i) = get_elem?_within d.tl.buffer 1 (omega (arith, v.whole)) in
            rw (b, i, ◌>>=◌, checked)
              (elim (Option-cases (lookup id d.tl.connections)) [
                | inl l ↦ rw l (Ends-done (transport_error, 0) d v.whole)
                | inr (connection, l) ↦
                    let (field, r, near, small) =
                      read_length_field_total (drop 3 d.tl.buffer)
                        (omega (arith, length-drop 3 d.tl.buffer, v.whole)) in
                    rw (l, r, ◌>>=◌, checked)
                      (accept_tpdu-Whole connection field.0 field.1 d v.whole (ground (arith, b))
                        (v.read e))
              ])
      ])
    ]
