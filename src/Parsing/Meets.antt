-- ===== src/Parsing/Meets.antt =====
-- What a step of a parser promises: it does not fault, and what it parses is as told.
use helia.Parsing.{Parse, bad, byte, fault, need_more, parsed, read_uint16, read_uint32, ◌>>=◌}
use helia.Common.{
  ℕ, zero, suc, ◌+◌, ◌^◌, ◌<◌, ◌≡◌, ◌≢◌, refl, ap, subst, Bool, true, false, List, [], ◌∷◌,
  if◌then◌else◌, length, All, IsByte, arith,
}

pub record Meets {A : Type 0} (Q : A → Type 0) (m : Parse A) : Type 0 where
  pub no_fault : m ≢ fault
  pub result : (a : A) → m ≡ parsed a → Q a

-- What was parsed, or `a` if nothing was.
abbrev value : {A : Type 0} → A → Parse A → A
value a (parsed b) = b
value a bad = a
value a need_more = a
value a fault = a

pub Meets-parsed : {A : Type 0} {Q : A → Type 0} (a : A) → Q a → Meets Q (parsed a)
Meets-parsed {Q} a q = record {
  no_fault = λ e. ground arith;
  result = λ b e. subst Q (ap (value a) e) q;
}

pub Meets-bad : {A : Type 0} {Q : A → Type 0} → Meets Q bad
Meets-bad = record { no_fault = λ e. ground arith; result = λ b e. ground arith }

pub Meets-need_more : {A : Type 0} {Q : A → Type 0} → Meets Q need_more
Meets-need_more = record { no_fault = λ e. ground arith; result = λ b e. ground arith }

pub Meets-bind :
    {A B : Type 0} {Q : A → Type 0} {R : B → Type 0} (m : Parse A) (f : A → Parse B)
    → Meets Q m
    → ((a : A) → Q a → Meets R (f a))
    → Meets R (m >>= f)
Meets-bind (parsed a) f h k = k a (h.result a refl)
Meets-bind bad f h k = Meets-bad
Meets-bind need_more f h k = Meets-need_more
Meets-bind fault f h k = absurd (h.no_fault refl)

pub Meets-if :
    {A : Type 0} {Q : A → Type 0} (b : Bool) (m k : Parse A)
    → (b ≡ true → Meets Q m)
    → (b ≡ false → Meets Q k)
    → Meets Q (if b then m else k)
Meets-if true m k h l = h refl
Meets-if false m k h l = l refl

-- A byte within the memory.
pub Meets-byte :
    (memory : List ℕ) (k : ℕ) → All IsByte memory → k < length memory → Meets IsByte (byte memory k)
Meets-byte [] k h l = absurd (omega arith)
Meets-byte (b ∷ memory) zero h l = Meets-parsed b h.0
Meets-byte (b ∷ memory) (suc k) h l = Meets-byte memory k h.1 (omega arith)

module _ (memory : List ℕ) (bytes : All IsByte memory) where
  pub Meets-uint16 :
      (k : ℕ) → k + 1 < length memory → Meets (λ (w : ℕ). w < 2 ^ 16) (read_uint16 memory k)
  unfolding read_uint16
  Meets-uint16 k h =
      Meets-bind _ _ (Meets-byte memory k bytes (omega arith)) λ a x.
        Meets-bind _ _ (Meets-byte memory (k + 1) bytes h) λ b y. Meets-parsed _ (omega arith)

  pub Meets-uint32 :
      (k : ℕ) → k + 3 < length memory → Meets (λ (w : ℕ). w < 2 ^ 32) (read_uint32 memory k)
  unfolding read_uint32
  Meets-uint32 k h = Meets-bind _ _ (Meets-byte memory k bytes (omega arith)) λ a p.
      Meets-bind _ _ (Meets-byte memory (k + 1) bytes (omega arith)) λ b q.
        Meets-bind _ _ (Meets-byte memory (k + 2) bytes (omega arith)) λ c r.
          Meets-bind _ _ (Meets-byte memory (k + 3) bytes h) λ d s. Meets-parsed _ (omega arith)

pub Meets-weaken :
    {A : Type 0} {Q R : A → Type 0} (m : Parse A) → Meets Q m → ((a : A) → Q a → R a) → Meets R m
Meets-weaken m h k = record { no_fault = h.no_fault; result = λ a e. k a (h.result a e) }
