-- ===== src/Cam/Dangling.antt =====
-- gst/gst-dvb/camsession.c, handle_open_session_request over camapplication.c: a session is freed
-- while the application that took it keeps a pointer to it.
use helia.Common.{
  ℕ, ◌+◌, ◌<◌, ◌≡◌, refl, ◌∙◌, true, none, some, List, [], ◌∷◌, ◌++◌, lookup, drop, read_be32, ap,
  arith,
}
use helia.Cam.State.{
  CamReturn, failed, CamSlSession, Cam, CamAlApplication, App, resource_manager, application_info,
  conditional_access,
}
use helia.Cam.Monad.{done, checked, the_application, the_session, fault}
use helia.Cam.Sends.{OnlySends, write_spdu-Sends}
use helia.Cam.SessionTable.{IsNumbered, lookup_above}
use helia.Cam.Session.{session_new, send_open_session_response}
use helia.Cam.Spdu.{handle_open_session_request, answer_open_request}
use helia.Cam.Apdu.{al_callbacks}
use helia.Cam.Stack.{IsInstalled, accepted, request_accepted}

-- The state after the next session number was taken.
abbrev pub counted : Cam → Cam
counted c = record c { sl = record (c.sl) { session_ids = c.sl.session_ids + 1 } }

counted-application :
    (app : App) (c : Cam) → the_application app (counted c) ≡ the_application app c
counted-application resource_manager c = refl
counted-application application_info c = refl
counted-application conditional_access c = refl

sends-application :
    (app : App) (c d : Cam) → OnlySends c d → the_application app d ≡ the_application app c
sends-application resource_manager c d o = o.mgr
sends-application application_info c d o = o.info
sends-application conditional_access c d o = o.cas

accepted-sessions :
    (app : App) (s : CamSlSession) (c : Cam)
    → (the_application app (accepted app s c)).sessions
      ≡ (the_application app c).sessions ++ (s.session_nb ∷ [])
accepted-sessions resource_manager s c = refl
accepted-sessions application_info s c = refl
accepted-sessions conditional_access s c = refl

accepted-sl : (app : App) (s : CamSlSession) (c : Cam) → (accepted app s c).sl ≡ c.sl
accepted-sl resource_manager s c = refl
accepted-sl application_info s c = refl
accepted-sl conditional_access s c = refl

-- If the answer to an accepted request cannot be sent, the request fails and its session is in no
-- table, but the application has added the session to its own: following it from there is a fault.
pub open_session_dangling :
    (connection resource_id : ℕ) (app : App) (spdu : List ℕ) (c c' : Cam) (ret : CamReturn)
    → IsInstalled c
    → IsNumbered c.sl
    → c.sl.session_ids < 65535
    → read_be32 (drop 2 spdu) ≡ some resource_id
    → lookup resource_id c.applications ≡ some app
    → (let nb = c.sl.session_ids + 1 in
        let s = session_new connection nb resource_id in
        send_open_session_response
          (record s { user_data = some app })
          0
          (accepted app s (counted c)))
      ≡ done (ret, c')
    → failed ret ≡ true
    → (handle_open_session_request al_callbacks connection spdu 6 c ≡ done (ret, c'))
      × ((the_application app c').sessions
          ≡ (the_application app c).sessions ++ ((c.sl.session_ids + 1) ∷ []))
      × (the_session (c.sl.session_ids + 1) c' ≡ fault)
unfolding handle_open_session_request answer_open_request send_open_session_response session_new
open_session_dangling connection resource_id app spdu c c' ret v t room r l sent bad =
    let nb = c.sl.session_ids + 1 in
    let s = session_new connection nb resource_id in
    let here = (write_spdu-Sends connection _).apply (accepted app s (counted c)) ret c' sent in
    let installed : IsInstalled (counted c) = record {
      own_id = λ id a e.
          ap (λ (b : CamAlApplication). b.resource_id) (counted-application a c) ∙ v.own_id id a e;
    } in
    let gone : lookup nb c'.sl.sessions ≡ none =
      rw (here.sl, accepted-sl app s (counted c)) (lookup_above c.sl nb t (omega arith)) in
    (
      ground (arith, r, request_accepted s app (counted c) installed l, sent, bad),
      ap (λ (b : CamAlApplication). b.sessions) (sends-application app _ c' here)
          ∙ accepted-sessions app s (counted c)
          ∙ ap (λ (b : CamAlApplication). b.sessions ++ (nb ∷ [])) (counted-application app c),
      rw (gone, checked),
    )
