-- ===== src/Cam/Effects.antt =====
-- What a step may change: steps that respect a preorder on states, and the rules by which a `do`
-- block does.
use helia.Common.{Bool, true, false, Option, none, some, ◌≡◌, refl, subst, if◌then◌else◌}
use helia.Cam.State.{Cam}
use helia.Cam.Monad.{Run, done, fault, stuck, M, ◌>>=◌, return, checked, get}

pub record Preorder (R : Cam → Cam → Type 0) : Type 0 where
  pub same : (c : Cam) → R c c
  pub chain : (c d e : Cam) → R c d → R d e → R c e

pub record Respects (R : Cam → Cam → Type 0) {A : Type 0} (m : M A) : Type 0 where
  pub apply : (c : Cam) (a : A) (c' : Cam) → m c ≡ done (a, c') → R c c'

-- Inversion of a chain that ends.
pub >>=-done :
    {A B : Type 0} (m : M A) (f : A → M B) (c : Cam) {b : B} {c'' : Cam}
    → (m >>= f) c ≡ done (b, c'')
    → (a : A) × (c' : Cam) × (m c ≡ done (a, c')) × (f a c' ≡ done (b, c''))
>>=-done {A} {B} m f c {b} {c''} h = go (m c) refl h
  where
    go :
        (r : Run (A × Cam))
        → m c ≡ r
        → (let next : Run (B × Cam) = elim r [
          | done (a, c') ↦ f a c'
          | fault ↦ fault
          | stuck ↦ stuck
        ] in
            next)
          ≡ done (b, c'')
        → (a : A) × (c' : Cam) × (m c ≡ done (a, c')) × (f a c' ≡ done (b, c''))
    go (done (a, c')) e h = (a, c', e, h)
    go fault e h = cc
    go stuck e h = cc

done-state :
    {A : Type 0} {a b : A} {c d : Cam} → ◌≡◌ {A = Run (A × Cam)} (done (a, c)) (done (b, d)) → c ≡ d
done-state h = cc

-- The result of a step that ends, and the state after it.
abbrev pub returns : {A : Type 0} → (Cam → A) → (Cam → Cam) → M A
returns g f c = done (g c, f c)

module _ (R : Cam → Cam → Type 0) (o : Preorder R) where
  pub Respects-returns :
      {A : Type 0} (g : Cam → A) (f : Cam → Cam)
      → ((c : Cam) → R c (f c))
      → Respects R (returns g f)
  Respects-returns g f step = record {
    apply = λ c a c' h. subst (λ (d : Cam). R c d) (done-state h) (step c);
  }

  pub Respects-return : {A : Type 0} (a : A) → Respects R (return a)
  Respects-return a = Respects-returns (λ c. a) (λ c. c) o.same

  pub Respects-get : Respects R get
  Respects-get = Respects-returns (λ c. c) (λ c. c) o.same

  pub Respects-bind :
      {A B : Type 0} (m : M A) (f : A → M B)
      → Respects R m
      → ((a : A) → Respects R (f a))
      → Respects R (m >>= f)
  Respects-bind m f p q = record {
    apply = λ c b c'' h.
        let (a, c', e, e') = >>=-done m f c h in
        o.chain c c' c'' (p.apply c a c' e) ((q a).apply c' b c'' e');
  }

  pub Respects-if :
      {A : Type 0} (b : Bool) (m n : M A)
      → Respects R m
      → Respects R n
      → Respects R (if b then m else n)
  Respects-if true m n p q = p
  Respects-if false m n p q = q

  pub Respects-checked : {A : Type 0} (v : Option A) → Respects R (checked v)
  Respects-checked none = record { apply = λ c a c' h. cc }
  Respects-checked (some v) = Respects-return v
