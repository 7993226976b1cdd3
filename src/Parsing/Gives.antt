-- ===== src/Parsing/Gives.antt =====
-- What a step of a parser that always succeeds promises: it gives a result, and the result is as told.
use helia.Parsing.{Parse, parsed, ◌>>=◌}
use helia.Common.{arith, subst, ◌≡◌, refl, Bool, true, false, if◌then◌else◌}

pub record Gives {A : Type 0} (Q : A → Type 0) (m : Parse A) : Type 0 where
  pub value : A
  pub gives : m ≡ parsed value
  pub holds : Q value

pub Gives-parsed : {A : Type 0} {Q : A → Type 0} (a : A) → Q a → Gives Q (parsed a)
Gives-parsed a q = record { value = a; gives = refl; holds = q }

pub Gives-bind :
    {A B : Type 0} {Q : A → Type 0} {R : B → Type 0} (m : Parse A) (f : A → Parse B)
    → Gives Q m
    → ((a : A) → Q a → Gives R (f a))
    → Gives R (m >>= f)
Gives-bind m f h k = rw h.gives (k h.value h.holds)

pub Gives-if :
    {A : Type 0} {Q : A → Type 0} (b : Bool) (m k : Parse A)
    → (b ≡ true → Gives Q m)
    → (b ≡ false → Gives Q k)
    → Gives Q (if b then m else k)
Gives-if true m k h l = h refl
Gives-if false m k h l = l refl

pub Gives-weaken :
    {A : Type 0} {Q R : A → Type 0} (m : Parse A) → Gives Q m → ((a : A) → Q a → R a) → Gives R m
Gives-weaken m h k = record { value = h.value; gives = h.gives; holds = k h.value h.holds }

-- Whatever is parsed is as told.
pub Gives-result :
    {A : Type 0} {Q : A → Type 0} (m : Parse A) (a : A) → Gives Q m → m ≡ parsed a → Q a
Gives-result {Q} m a h e =
    let same : h.value ≡ a = ground (arith, h.gives, e) in subst Q same h.holds
