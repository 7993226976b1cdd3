-- ===== src/Cam/Sends.antt =====
-- The calls that write to the module change the log and the count of the expected TPDUs, and
-- nothing else of the state.
use helia.Common.{ℕ, ◌+◌, Bool, Option, ◌≡◌, refl, ◌∙◌, lookup, if◌then◌else◌, List}
use helia.Cam.State.{
  Cam, CamSlSession, CamTlConnection, ok, transport_error, App, resource_manager, application_info,
  conditional_access,
}
use helia.Cam.Monad.{M, ◌>>=◌, return, get, modify_tl, os_write, checked, the_connection}
use helia.Cam.Effects.{
  Preorder, Respects, Respects-returns, Respects-return, Respects-get, Respects-bind, Respects-if,
  Respects-checked,
}
use helia.Cam.Transport.{u32, write_tpdu, connection_write}
use helia.Cam.Session.{write_spdu, session_write}
use helia.Cam.Application.{application_write}
use helia.Cam.Apps.{write_apdu, send_simple, send_profile_reply, app_open}

-- What writing leaves alone.
pub record OnlySends (c d : Cam) : Type 0 where
  pub os : d.os ≡ c.os
  pub connections : d.tl.connections ≡ c.tl.connections
  pub buffer : d.tl.buffer ≡ c.tl.buffer
  pub sl : d.sl ≡ c.sl
  pub applications : d.applications ≡ c.applications
  pub mgr : d.mgr ≡ c.mgr
  pub info : d.info ≡ c.info
  pub cas : d.cas ≡ c.cas
  pub ready : d.ready ≡ c.ready

pub OnlySends-preorder : Preorder OnlySends
OnlySends-preorder = record {
  same = λ c. record {
    os = refl;
    connections = refl;
    buffer = refl;
    sl = refl;
    applications = refl;
    mgr = refl;
    info = refl;
    cas = refl;
    ready = refl;
  };
  chain = λ c d e p q. record {
    os = q.os ∙ p.os;
    connections = q.connections ∙ p.connections;
    buffer = q.buffer ∙ p.buffer;
    sl = q.sl ∙ p.sl;
    applications = q.applications ∙ p.applications;
    mgr = q.mgr ∙ p.mgr;
    info = q.info ∙ p.info;
    cas = q.cas ∙ p.cas;
    ready = q.ready ∙ p.ready;
  };
}

abbrev pub Sends : {A : Type 0} → M A → Type 0
Sends m = Respects OnlySends m

Sends-bind :
    {A B : Type 0} (m : M A) (f : A → M B) → Sends m → ((a : A) → Sends (f a)) → Sends (m >>= f)
Sends-bind m f p q = Respects-bind OnlySends OnlySends-preorder m f p q

Sends-return : {A : Type 0} (a : A) → Sends (return a)
Sends-return a = Respects-return OnlySends OnlySends-preorder a

Sends-get : Sends get
Sends-get = Respects-get OnlySends OnlySends-preorder

Sends-if : {A : Type 0} (b : Bool) (m n : M A) → Sends m → Sends n → Sends (if b then m else n)
Sends-if b m n p q = Respects-if OnlySends OnlySends-preorder b m n p q

Sends-checked : {A : Type 0} (v : Option A) → Sends (checked v)
Sends-checked v = Respects-checked OnlySends OnlySends-preorder v

Sends-os_write : (bytes : List ℕ) → Sends (os_write bytes)
Sends-os_write bytes = Respects-returns OnlySends OnlySends-preorder _ _ (λ c. record {
  os = refl;
  connections = refl;
  buffer = refl;
  sl = refl;
  applications = refl;
  mgr = refl;
  info = refl;
  cas = refl;
  ready = refl;
})

Sends-expected :
    (f : ℕ → ℕ) → Sends (modify_tl (λ tl. record tl { expected_tpdus = f tl.expected_tpdus }))
Sends-expected f = Respects-returns OnlySends OnlySends-preorder _ _ (λ c. record {
  os = refl;
  connections = refl;
  buffer = refl;
  sl = refl;
  applications = refl;
  mgr = refl;
  info = refl;
  cas = refl;
  ready = refl;
})

Sends-the_connection : (id : ℕ) → Sends (the_connection id)
Sends-the_connection id = record {
  apply = λ c. (Sends-checked (lookup id c.tl.connections)).apply c;
}

ruleset sending = (
  Sends-bind, Sends-return, Sends-get, Sends-if, Sends-checked, Sends-os_write, Sends-expected,
  Sends-the_connection,
)

write_tpdu-Sends :
    (connection : CamTlConnection) (tag : ℕ) (buffer : List ℕ) (n : ℕ)
    → Sends (write_tpdu connection tag buffer n)
unfolding write_tpdu
write_tpdu-Sends connection tag buffer n = Sends-bind _ _ (Sends-checked _) λ filled.
    Sends-bind _ _ (Sends-os_write filled) λ sent.
      Sends-if sent _ _
        (Sends-bind _ _ (Sends-expected (λ k. u32 (k + 1))) (λ _. Sends-return (ok, filled)))
        (Sends-return (transport_error, filled))

pub connection_write-Sends :
    (id : ℕ) (buffer : List ℕ) (n : ℕ) → Sends (connection_write id buffer n)
unfolding connection_write
connection_write-Sends id buffer n = search (sending, write_tpdu-Sends)

pub write_spdu-Sends : (id : ℕ) (spdu : List ℕ) → Sends (write_spdu id spdu)
unfolding write_spdu
write_spdu-Sends id spdu = search (sending, connection_write-Sends)

pub application_write-Sends :
    (session : CamSlSession) (tag : ℕ) (buffer : List ℕ) (n : ℕ)
    → Sends (application_write session tag buffer n)
unfolding application_write session_write
application_write-Sends session tag buffer n = search (sending, connection_write-Sends)

pub write_apdu-Sends :
    (session : CamSlSession) (tag : ℕ) (body : List ℕ) → Sends (write_apdu session tag body)
unfolding write_apdu
write_apdu-Sends session tag body = search (sending, application_write-Sends)

pub send_profile_reply-Sends : (session : CamSlSession) → Sends (send_profile_reply session)
unfolding send_profile_reply
send_profile_reply-Sends session = search (sending, write_apdu-Sends)

-- What an application sends when its session is opened.
pub app_open-Sends : (app : App) (session : CamSlSession) → Sends (app_open app session)
unfolding app_open send_simple
app_open-Sends resource_manager session = search write_apdu-Sends
app_open-Sends application_info session = search write_apdu-Sends
app_open-Sends conditional_access session = search write_apdu-Sends
