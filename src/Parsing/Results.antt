-- ===== src/Parsing/Results.antt =====
-- What a step of a parser promises of its result, if it gives one.
use helia.Parsing.{Parse, parsed, bad, need_more, fault, ◌>>=◌}
use helia.Common.{arith, subst, ◌≡◌, refl, Bool, true, false, if◌then◌else◌}
use helia.Parsing.Gives.{Gives}

pub record Results {A : Type 0} (Q : A → Type 0) (m : Parse A) : Type 0 where
  pub result : (a : A) → m ≡ parsed a → Q a

pub Results-parsed : {A : Type 0} {Q : A → Type 0} (a : A) → Q a → Results Q (parsed a)
Results-parsed {Q} a q = record { result = λ b e. let same : a ≡ b = cc e in subst Q same q }

pub Results-bad : {A : Type 0} {Q : A → Type 0} → Results Q bad
Results-bad = record { result = λ b e. absurd (ground (arith, e)) }

pub Results-bind :
    {A B : Type 0} {Q : A → Type 0} {R : B → Type 0} (m : Parse A) (f : A → Parse B)
    → Results Q m
    → ((a : A) → Q a → Results R (f a))
    → Results R (m >>= f)
Results-bind (parsed a) f h k = k a (h.result a refl)
Results-bind bad f h k = record { result = λ b e. absurd (ground (arith, e)) }
Results-bind need_more f h k = record { result = λ b e. absurd (ground (arith, e)) }
Results-bind fault f h k = record { result = λ b e. absurd (ground (arith, e)) }

pub Results-if :
    {A : Type 0} {Q : A → Type 0} (b : Bool) (m k : Parse A)
    → Results Q m
    → Results Q k
    → Results Q (if b then m else k)
Results-if true m k h l = h
Results-if false m k h l = l

-- The same where each branch may use what was tested.
pub Results-either :
    {A : Type 0} {Q : A → Type 0} (b : Bool) (m k : Parse A)
    → (b ≡ true → Results Q m)
    → (b ≡ false → Results Q k)
    → Results Q (if b then m else k)
Results-either true m k h l = h refl
Results-either false m k h l = l refl

-- Any result.
pub Results-any : {A : Type 0} (m : Parse A) → Results (λ a. Unit {0}) m
Results-any m = record { result = λ a e. tt }

-- A result that is as told, and as told twice.
pub Gives-Results :
    {A : Type 0} {Q R : A → Type 0} (m : Parse A)
    → Gives Q m
    → Results R m
    → Gives (λ a. Q a × R a) m
Gives-Results m h r = record {
  value = h.value;
  gives = h.gives;
  holds = (h.holds, r.result h.value h.gives);
}

-- A step of which nothing is needed.
pub Results-skip :
    {A B : Type 0} {R : B → Type 0} (m : Parse A) (f : A → Parse B)
    → ((a : A) → Results R (f a))
    → Results R (m >>= f)
Results-skip m f k = Results-bind m f (Results-any m) λ a w. k a
