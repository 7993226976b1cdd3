-- ===== src/Cam/Stack.antt =====
-- gst/gst-dvb/camapplication.c under camsession.c: the callbacks of the application layer.
use helia.Common.{
  ℕ, ◌+◌, ◌-◌, ◌%◌, ◌^◌, ◌≡◌, ◌⊎◌, ◌++◌, ◌∙◌, inl, inr, refl, sym, subst, Bool, true, not, Option,
  none, some, List, [], ◌∷◌, ltb, ◌==◌, if◌then◌else◌, lookup, drop, get_elem?, Option-cases, arith,
}
use helia.Cam.LengthField.{read_length_field}
use helia.Cam.State.{
  CamReturn, ok, application_error, CamSlSession, Cam, App, resource_manager, application_info,
  conditional_access,
}
use helia.Cam.Monad.{
  done, M, ◌>>=◌, return, get, checked, crash, modify, the_session, the_application,
}
use helia.Cam.Effects.{
  Preorder, Respects, Respects-bind, Respects-return, Respects-if, Respects-checked,
  Respects-returns, Respects-get,
}
use helia.Cam.Sends.{Sends, write_apdu-Sends, app_open-Sends, send_profile_reply-Sends}
use helia.Cam.Apps.{
  app_data, app_open, manager_data, info_data, info_reply, access_data, access_info_reply,
  pmt_reply, pmt_reply_loop, send_simple, write_apdu, send_profile_reply, app_close,
  app_session_request,
}
use helia.Cam.Apdu.{
  open_session_request_cb, session_opened_cb, delete_session, session_closed_cb, session_data_cb,
  al_callbacks, with_sessions, status_not_found, status_open,
}
use helia.Cam.Numbering.{KeepsSessions}
use mathlib.Core.Option.{some-injective}

abbrev SameSl : Cam → Cam → Type 0
SameSl c d = d.sl ≡ c.sl

SameSl-preorder : Preorder SameSl
SameSl-preorder = record { same = λ c. refl; chain = λ c d e p q. q ∙ p }

abbrev Apart : {A : Type 0} → M A → Type 0
Apart m = Respects SameSl m

Apart-Sends : {A : Type 0} (m : M A) → Sends m → Apart m
Apart-Sends m p = record { apply = λ c a c' e. (p.apply c a c' e).sl }

Apart-bind :
    {A B : Type 0} (m : M A) (f : A → M B) → Apart m → ((a : A) → Apart (f a)) → Apart (m >>= f)
Apart-bind m f p q = Respects-bind SameSl SameSl-preorder m f p q

Apart-return : {A : Type 0} (a : A) → Apart (return a)
Apart-return a = Respects-return SameSl SameSl-preorder a

Apart-if : {A : Type 0} (b : Bool) (m n : M A) → Apart m → Apart n → Apart (if b then m else n)
Apart-if b m n p q = Respects-if SameSl SameSl-preorder b m n p q

Apart-checked : {A : Type 0} (v : Option A) → Apart (checked v)
Apart-checked v = Respects-checked SameSl SameSl-preorder v

Apart-crash : {A : Type 0} → Apart (crash {A = A})
Apart-crash = record { apply = λ c a c' e. cc }

Apart-get : Apart get
Apart-get = Respects-get SameSl SameSl-preorder

Apart-modify : (f : Cam → Cam) → ((c : Cam) → (f c).sl ≡ c.sl) → Apart (modify f)
Apart-modify f h = Respects-returns SameSl SameSl-preorder _ _ h

Apart-ready : Apart (modify (λ c. record c { ready = true }))
Apart-ready = Apart-modify (λ c. record c { ready = true }) (λ c. refl)

Apart-write_apdu : (s : CamSlSession) (tag : ℕ) (body : List ℕ) → Apart (write_apdu s tag body)
Apart-write_apdu s tag body = Apart-Sends _ (write_apdu-Sends s tag body)

Apart-profile : (s : CamSlSession) → Apart (send_profile_reply s)
Apart-profile s = Apart-Sends _ (send_profile_reply-Sends s)

ruleset apart = (
  Apart-bind, Apart-return, Apart-if, Apart-checked, Apart-crash, Apart-get, Apart-ready,
  Apart-write_apdu, Apart-profile,
)

pmt_reply_loop-Apart : (buffer : List ℕ) (n : ℕ) → Apart (pmt_reply_loop buffer n)
unfolding pmt_reply_loop
pmt_reply_loop-Apart [] n = search apart
pmt_reply_loop-Apart (a ∷ []) n = search apart
pmt_reply_loop-Apart (a ∷ b ∷ []) n = search apart
pmt_reply_loop-Apart (a ∷ b ∷ c ∷ buffer) n =
    Apart-if (n == 0) _ _ (Apart-return ok)
      (pmt_reply_loop-Apart buffer ((n + 2 ^ 32 - 3) % 2 ^ 32))

manager_data-Apart : (s : CamSlSession) (tag : ℕ) → Apart (manager_data s tag)
unfolding manager_data send_simple
manager_data-Apart s tag = search apart depth 8

info_data-Apart : (tag : ℕ) (buffer : List ℕ) → Apart (info_data tag buffer)
unfolding info_data info_reply
info_data-Apart tag buffer = search apart depth 8

access_data-Apart : (tag : ℕ) (buffer : List ℕ) (n : ℕ) → Apart (access_data tag buffer n)
unfolding access_data access_info_reply pmt_reply
access_data-Apart tag buffer n = search (apart, pmt_reply_loop-Apart) depth 8

app_data-Apart :
    (app : App) (s : CamSlSession) (tag : ℕ) (buffer : List ℕ) (n : ℕ)
    → Apart (app_data app s tag buffer n)
unfolding app_data
app_data-Apart resource_manager s tag buffer n = manager_data-Apart s tag
app_data-Apart application_info s tag buffer n = info_data-Apart tag buffer
app_data-Apart conditional_access s tag buffer n = access_data-Apart tag buffer n

Apart-the_session : (nb : ℕ) → Apart (the_session nb)
Apart-the_session nb = record { apply = λ c. (Apart-checked (lookup nb c.sl.sessions)).apply c }

delete_session-Apart : (nb : ℕ) (ss : List ℕ) → Apart (delete_session nb ss)
unfolding delete_session
delete_session-Apart nb [] = search apart
delete_session-Apart nb (s ∷ ss) = Apart-bind _ _ (Apart-the_session s) λ session.
    Apart-if (session.session_nb == nb) _ _ (Apart-return ss)
      (Apart-bind _ _ (delete_session-Apart nb ss) λ rest. Apart-return (s ∷ rest))

with_sessions-sl : (app : App) (ss : List ℕ) (c : Cam) → (with_sessions app ss c).sl ≡ c.sl
with_sessions-sl resource_manager ss c = refl
with_sessions-sl application_info ss c = refl
with_sessions-sl conditional_access ss c = refl

by_app :
    {A : Type 0} (o : Option App) (m : M A) (f : App → M A)
    → Apart m
    → ((app : App) → Apart (f app))
    → Apart (elim o [ none ↦ m | some app ↦ f app ])
by_app none m f p q = p
by_app (some app) m f p q = q app

session_opened_cb-Apart : (s : CamSlSession) → Apart (session_opened_cb s)
unfolding session_opened_cb
session_opened_cb-Apart s =
    by_app s.user_data _ _ (Apart-return application_error)
      λ app. Apart-Sends (app_open app s) (app_open-Sends app s)

session_closed_cb-Apart : (s : CamSlSession) → Apart (session_closed_cb s)
unfolding session_closed_cb app_close
session_closed_cb-Apart s = by_app s.user_data _ _ (Apart-return application_error) λ app.
    Apart-bind _ _ (Apart-return ok) λ ret. Apart-bind _ _ Apart-get λ c.
      Apart-bind _ _ (delete_session-Apart s.session_nb (the_application app c).sessions) λ left.
        Apart-bind _ _ (Apart-modify (with_sessions app left) (with_sessions-sl app left))
          λ _. Apart-return ret

session_data_cb-Apart :
    (s : CamSlSession) (bytes : List ℕ) (n : ℕ) → Apart (session_data_cb s bytes n)
unfolding session_data_cb
session_data_cb-Apart s bytes n = by_app s.user_data _ _ (Apart-return application_error) λ app.
    Apart-if (ltb n 4) _ _ (Apart-return application_error) (
      Apart-bind _ _ (Apart-checked (get_elem? bytes 0)) λ x.
        Apart-bind _ _ (Apart-checked (get_elem? bytes 1)) λ y.
          Apart-bind _ _ (Apart-checked (get_elem? bytes 2)) λ z.
            Apart-bind _ _ (Apart-checked (read_length_field (drop 3 bytes))) λ field.
              Apart-if (not (field.1 == n - 4)) _ _ (Apart-return application_error)
                (app_data-Apart app s _ _ field.1))

-- Every application stands in the table under its own resource id.
pub record IsInstalled (c : Cam) : Type 0 where
  pub own_id :
      (id : ℕ) (app : App)
      → lookup id c.applications ≡ some app
      → (the_application app c).resource_id ≡ id

-- The state after an application has taken a session.
abbrev pub accepted : App → CamSlSession → Cam → Cam
accepted app s c = with_sessions app ((the_application app c).sessions ++ (s.session_nb ∷ [])) c

pub request_accepted :
    (s : CamSlSession) (app : App) (c : Cam)
    → IsInstalled c
    → lookup s.resource_id c.applications ≡ some app
    → open_session_request_cb s c
      ≡ done ((ok, status_open, record s { user_data = some app }), accepted app s c)
unfolding open_session_request_cb app_session_request
request_accepted s app c v e = rw (e, ◌>>=◌) (rw (← v.own_id s.resource_id app e) (ground arith))

-- A request for a resource is answered in one of two ways: an unknown id is not found, and a known
-- one is opened, with the session added to the application's. The answer for a wrong version does
-- not occur, since the lookup finds equal ids only.
pub open_session_request_outcome :
    (s : CamSlSession) (c : Cam)
    → IsInstalled c
    → ((lookup s.resource_id c.applications ≡ none)
        × (open_session_request_cb s c ≡ done ((ok, status_not_found, s), c)))
      ⊎ ((app : App) × (lookup s.resource_id c.applications ≡ some app)
          × (open_session_request_cb s c
              ≡ done ((ok, status_open, record s { user_data = some app }), accepted app s c)))
unfolding open_session_request_cb app_session_request
open_session_request_outcome s c v = elim (Option-cases (lookup s.resource_id c.applications)) [
  | inl e ↦ inl (e, rw (e, ◌>>=◌))
  | inr (app, e) ↦ inr (app, e, request_accepted s app c v e)
]

open_request_answer :
    (s : CamSlSession) (c : Cam) (ret : CamReturn) (status : ℕ) (s' : CamSlSession) (c' : Cam)
    → open_session_request_cb s c ≡ done ((ret, status, s'), c')
    → (c'.sl ≡ c.sl) × (s'.session_nb ≡ s.session_nb)
unfolding open_session_request_cb app_session_request
open_request_answer s c ret status s' c' h =
    elim (Option-cases (lookup s.resource_id c.applications)) [
      | inl e ↦ ground (arith, e)
      | inr (app, e) ↦ ground (
        arith,
        e,
        with_sessions-sl app ((the_application app c).sessions ++ (s.session_nb ∷ [])) c,
      )
    ]

-- The callbacks of the application layer keep to what the session layer relies on.
pub al_callbacks-KeepsSessions : KeepsSessions al_callbacks
al_callbacks-KeepsSessions = record {
  requested = open_request_answer;
  opened = λ s. (session_opened_cb-Apart s).apply;
  closed = λ s. (session_closed_cb-Apart s).apply;
  delivered = λ callback e s bytes n c ret c' h. (session_data_cb-Apart s bytes n).apply c ret c' (
      subst (λ (f : CamSlSession → List ℕ → ℕ → M CamReturn). f s bytes n c ≡ done (ret, c'))
        (sym (some-injective session_data_cb callback e)) h);
}
