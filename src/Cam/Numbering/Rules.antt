-- ===== src/Cam/Numbering/Rules.antt =====
-- Rules for steps that keep the table of the sessions of gst/gst-dvb/camsession.c numbered.
use helia.Common.{
  ℕ, ◌+◌, ◌≤◌, ◌<◌, ◌≡◌, ◌≢◌, refl, sym, subst, Bool, Option, none, some, List, if◌then◌else◌,
  lookup, remove, arith,
}
use helia.Cam.State.{SessionState, idle, opening, active, closing, CamSlSession, CamSl, Cam}
use helia.Cam.Monad.{done, M, ◌>>=◌, return, get, checked, modify_sl}
use helia.Cam.Effects.{
  Preorder, Respects, Respects-bind, Respects-return, Respects-if, Respects-checked,
  Respects-returns,
}
use helia.Cam.Sends.{write_spdu-Sends}
use helia.Cam.SessionTable.{IsNumbered, insert-IsNumbered, remove-IsNumbered}
use helia.Cam.Session.{store_session, write_spdu}

-- The table stays numbered, and so many numbers stay handed out.
abbrev pub Numbered : ℕ → Cam → Type 0
Numbered k c = IsNumbered c.sl × (k ≤ c.sl.session_ids)

abbrev pub Keeps : ℕ → Cam → Cam → Type 0
Keeps k c d = Numbered k c → Numbered k d

pub Keeps-preorder : (k : ℕ) → Preorder (Keeps k)
Keeps-preorder k = record { same = λ c v. v; chain = λ c d e p q v. q (p v) }

module _ (k : ℕ) where
  pub same_sl :
      {A : Type 0} (m : M A)
      → ((c : Cam) (a : A) (c' : Cam) → m c ≡ done (a, c') → c'.sl ≡ c.sl)
      → Respects (Keeps k) m
  same_sl m h = record {
    apply = λ c a c' e v.
        let eq = h c a c' e in
        subst (λ (sl : CamSl). IsNumbered sl × (k ≤ sl.session_ids)) (sym eq) v;
  }

  pub bind :
      {A B : Type 0} (m : M A) (f : A → M B)
      → Respects (Keeps k) m
      → ((a : A) → Respects (Keeps k) (f a))
      → Respects (Keeps k) (m >>= f)
  bind m f p q = Respects-bind (Keeps k) (Keeps-preorder k) m f p q

  pub ending : {A : Type 0} (a : A) → Respects (Keeps k) (return a)
  ending a = Respects-return (Keeps k) (Keeps-preorder k) a

  pub branch :
      {A : Type 0} (b : Bool) (m n : M A)
      → Respects (Keeps k) m
      → Respects (Keeps k) n
      → Respects (Keeps k) (if b then m else n)
  branch b m n p q = Respects-if (Keeps k) (Keeps-preorder k) b m n p q

  pub checking : {A : Type 0} (v : Option A) → Respects (Keeps k) (checked v)
  checking v = Respects-checked (Keeps k) (Keeps-preorder k) v

  pub sending : (id : ℕ) (message : List ℕ) → Respects (Keeps k) (write_spdu id message)
  sending id message =
      same_sl (write_spdu id message) λ c a c' e. ((write_spdu-Sends id message).apply c a c' e).sl

  pub storing :
      (s : CamSlSession)
      → 0 < s.session_nb
      → s.session_nb ≤ k
      → Respects (Keeps k) (store_session s)
  storing s p q =
      Respects-returns (Keeps k) (Keeps-preorder k) _ _
        λ c v. (insert-IsNumbered c.sl s.session_nb s v.0 refl p (omega arith), v.1)

  pub removing :
      (nb : ℕ) → Respects (Keeps k) (modify_sl (λ s. record s { sessions = remove nb s.sessions }))
  removing nb =
      Respects-returns (Keeps k) (Keeps-preorder k) _ _ λ c v. (remove-IsNumbered c.sl nb v.0, v.1)

-- A session of the table has a number that was handed out.
pub looking_up :
    {A : Type 0} (nb : ℕ) (missing : M A) (found : CamSlSession → M A)
    → Respects (Keeps 0) missing
    → ((s : CamSlSession) → 0 < s.session_nb → Respects (Keeps s.session_nb) (found s))
    → Respects
        (Keeps 0)
        (get >>= λ c. elim (lookup nb c.sl.sessions) [ none ↦ missing | some s ↦ found s ])
looking_up {A} nb missing found p q = record {
  apply = λ c a c' e v. go c a c' v (lookup nb c.sl.sessions) refl e;
}
  where
    go :
        (c : Cam) (a : A) (c' : Cam)
        → Numbered 0 c
        → (o : Option CamSlSession) → lookup nb c.sl.sessions ≡ o
        → (let next : M A = elim o [ none ↦ missing | some s ↦ found s ] in next) c ≡ done (a, c')
        → Numbered 0 c'
    go c a c' v none l e = p.apply c a c' e v
    go c a c' v (some s) l e =
        let (own, above, below) = v.0.keyed nb s l in
        let kept = (q s (omega arith)).apply c a c' e (v.0, omega arith) in (kept.0, omega arith)

pub next_number :
    (sl : CamSl)
    → IsNumbered sl
    → sl.session_ids ≢ 65535
    → IsNumbered (record sl { session_ids = sl.session_ids + 1 })
next_number sl v room = record {
  counted = let b = v.counted in omega arith;
  keyed = λ nb s l. let (own, above, below) = v.keyed nb s l in (own, above, omega arith);
}

pub by_state :
    {A : Type 0} (k : ℕ) (st : SessionState) (a b c d : M A)
    → Respects (Keeps k) a
    → Respects (Keeps k) b
    → Respects (Keeps k) c
    → Respects (Keeps k) d
    → Respects (Keeps k) (elim st [ idle ↦ a | opening ↦ b | active ↦ c | closing ↦ d ])
by_state k idle a b c d p q r t = p
by_state k opening a b c d p q r t = q
by_state k active a b c d p q r t = r
by_state k closing a b c d p q r t = t
