-- ===== src/Cam/Apdu.antt =====
-- gst/gst-dvb/camapplication.c: the callbacks that the application layer gives to the session layer.
use helia.Common.{
  ℕ, ◌+◌, ◌-◌, ◌*◌, none, some, List, [], ◌∷◌, ◌++◌, not, ltb, ◌==◌, if◌then◌else◌, get_elem?, drop,
  lookup,
}
use helia.Cam.LengthField.{read_length_field}
use helia.Cam.State.{CamReturn, ok, application_error, failed, CamSlSession, App, Cam}
use helia.Cam.Monad.{
  M, ◌>>=◌, ◌>>◌, return, checked, get, modify, the_session, the_application, set_application,
}
use helia.Cam.Spdu.{SlCallbacks}
use helia.Cam.Application.{resource_id_version}
use helia.Cam.Apps.{app_session_request, app_open, app_close, app_data}

abbrev pub status_open : ℕ
status_open = 0x00

abbrev pub status_not_found : ℕ
status_not_found = 0xF0

abbrev pub status_invalid_version : ℕ
status_invalid_version = 0xF2

-- A store into the list of an application's sessions.
abbrev pub with_sessions : App → List ℕ → Cam → Cam
with_sessions app ss c = set_application app (record (the_application app c) { sessions = ss }) c

unfoldable pub open_session_request_cb : CamSlSession → M (CamReturn × ℕ × CamSlSession)
open_session_request_cb session = do
  c ← get
  elim (lookup session.resource_id c.applications) [
    | none ↦ return (ok, status_not_found, session)
    | some app ↦
        if ltb (resource_id_version (the_application app c).resource_id)
          (resource_id_version session.resource_id)
        then return (ok, status_invalid_version, session)
        else (do
          (ret, status) ← app_session_request app session
          if failed ret
              then return (ret, status_not_found, session)
              else if status == status_open
              then (do
                modify (λ s.
                    with_sessions app
                      ((the_application app s).sessions ++ (session.session_nb ∷ [])) s)
                return (ok, status, record session { user_data = some app }))
              else return (ok, status, session))
  ]

unfoldable pub session_opened_cb : CamSlSession → M CamReturn
session_opened_cb session = elim session.user_data [
  | none ↦ return application_error
  | some app ↦ app_open app session
]

-- The walk that takes the first session with the number off the list; each session on the way is
-- read through its pointer.
unfoldable pub delete_session : ℕ → List ℕ → M (List ℕ)
delete_session nb [] = return []
delete_session nb (s ∷ ss) = do
  session ← the_session s
  if session.session_nb == nb
      then return ss
      else (do rest ← delete_session nb ss; return (s ∷ rest))

unfoldable pub session_closed_cb : CamSlSession → M CamReturn
session_closed_cb session = elim session.user_data [
  | none ↦ return application_error
  | some app ↦ do
    ret ← app_close app session
    c ← get
    left ← delete_session session.session_nb (the_application app c).sessions
    modify (with_sessions app left)
    return ret
]

unfoldable pub session_data_cb : CamSlSession → List ℕ → ℕ → M CamReturn
session_data_cb session bytes size = elim session.user_data [
  | none ↦ return application_error
  | some app ↦ if ltb size 4 then return application_error else (do
    a ← checked (get_elem? bytes 0)
    b ← checked (get_elem? bytes 1)
    c ← checked (get_elem? bytes 2)
    (length_field_len, length) ← checked (read_length_field (drop 3 bytes))
    if not (length == size - 4)
        then return application_error
        else app_data app session ((a * 256 + b) * 256 + c) (drop (3 + length_field_len) bytes)
            length)
]

-- What `cam_al_new` puts into the CamSL.
abbrev pub al_callbacks : SlCallbacks
al_callbacks = record {
  open_session_request = some open_session_request_cb;
  session_opened = some session_opened_cb;
  session_closed = some session_closed_cb;
  session_data = some session_data_cb;
}
