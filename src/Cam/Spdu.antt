-- ===== src/Cam/Spdu.antt =====
-- gst/gst-dvb/camsession.c: the handlers of the SPDUs that the module sends.
use helia.Common.{
  ℕ, ◌+◌, ◌-◌, ◌%◌, Option, none, some, List, not, ltb, ◌==◌, if◌then◌else◌, get_elem?, drop,
  lookup, remove, read_be16, read_be32,
}
use helia.Cam.State.{
  CamReturn, ok, session_error, session_too_many_sessions, active, closing, CamSlSession,
}
use helia.Cam.Monad.{M, ◌>>=◌, ◌>>◌, return, checked, get, modify_sl, unless_failed}
use helia.Cam.Session.{
  tag_session_number, tag_open_session_request, tag_create_session_response,
  tag_close_session_request, tag_close_session_response, session_new, store_session,
  send_open_session_response, send_close_session_response,
}

-- The callbacks of a CamSL; `none` is NULL. A request is answered with the result, the status and
-- the session, whose user_data the callback may set.
pub record SlCallbacks : Type 0 where
  pub open_session_request : Option (CamSlSession → M (CamReturn × ℕ × CamSlSession))
  pub session_opened : Option (CamSlSession → M CamReturn)
  pub session_closed : Option (CamSlSession → M CamReturn)
  pub session_data : Option (CamSlSession → List ℕ → ℕ → M CamReturn)

-- `if (sl->session_opened) …`, and so for `session_closed`.
abbrev pub notify : Option (CamSlSession → M CamReturn) → CamSlSession → M CamReturn
notify none session = return ok
notify (some callback) session = callback session

abbrev pub request :
    Option (CamSlSession → M (CamReturn × ℕ × CamSlSession))
    → CamSlSession
    → M (CamReturn × ℕ × CamSlSession)
request none session = return (ok, 0xF0, session)
request (some callback) session = callback session

module _ (sl : SlCallbacks) where
  -- From the answer of the upper layer on.
  unfoldable pub answer_open_request : CamSlSession → ℕ → M CamReturn
  answer_open_request session status = do
    ret ← send_open_session_response session (status % 256)
    unless_failed ret (
        if status == 0
        then (do
          let opened = record session { state = active }
          store_session opened
          notified ← notify sl.session_opened opened
          unless_failed notified (return ok))
        else return ok)

  unfoldable pub handle_open_session_request : ℕ → List ℕ → ℕ → M CamReturn
  handle_open_session_request connection spdu spdu_length =
      if not (spdu_length == 6) then return session_error else (do
        resource_id ← checked (read_be32 (drop 2 spdu))
        c ← get
        if c.sl.session_ids == 65535 then return session_too_many_sessions else (do
          let session_nb = c.sl.session_ids + 1
          modify_sl (λ sl. record sl { session_ids = session_nb })
          (ret, status, session) ←
              request sl.open_session_request (session_new connection session_nb resource_id)
          unless_failed ret (answer_open_request session status)))

  unfoldable pub handle_create_session_response : List ℕ → ℕ → M CamReturn
  handle_create_session_response spdu spdu_length =
      if not (spdu_length == 9) then return session_error else (do
        session_nb ← checked (read_be16 (drop 7 spdu))
        c ← get
        elim (lookup session_nb c.sl.sessions) [
          | none ↦ return session_error
          | some session ↦ elim session.state [
            | closing ↦ return ok
            | _ ↦ do
              let opened = record session { state = active }
              store_session opened
              notify sl.session_opened opened
          ]
        ])

  -- A session that was not closing is closed.
  abbrev pub close_session : CamSlSession → M CamReturn
  close_session session = do
    ret ← notify sl.session_closed session
    modify_sl (λ s. record s { sessions = remove session.session_nb s.sessions })
    return ret

  unfoldable pub handle_close_session_request : List ℕ → ℕ → M CamReturn
  handle_close_session_request spdu spdu_length =
      if not (spdu_length == 4) then return session_error else (do
        session_nb ← checked (read_be16 (drop 2 spdu))
        c ← get
        elim (lookup session_nb c.sl.sessions) [
          | none ↦ return ok
          | some session ↦ elim session.state [
            | closing ↦ do
              ret ← send_close_session_response session 0xF0
              unless_failed ret (return ok)
            | _ ↦ do
              ret ← send_close_session_response session 0
              unless_failed ret
                  (do closed ← close_session session; unless_failed closed (return ok))
          ]
        ])

  unfoldable pub handle_close_session_response : List ℕ → ℕ → M CamReturn
  handle_close_session_response spdu spdu_length =
      if not (spdu_length == 5) then return session_error else (do
        session_nb ← checked (read_be16 (drop 3 spdu))
        c ← get
        elim (lookup session_nb c.sl.sessions) [
          | none ↦ return session_error
          | some session ↦ elim session.state [
            | active ↦ close_session session
            | _ ↦ return session_error
          ]
        ])

  unfoldable pub handle_session_data : List ℕ → ℕ → M CamReturn
  handle_session_data spdu spdu_length = if ltb spdu_length 4 then return session_error else (do
    session_nb ← checked (read_be16 (drop 2 spdu))
    c ← get
    elim (lookup session_nb c.sl.sessions) [
      | none ↦ return session_error
      | some session ↦ elim sl.session_data [
        | none ↦ return ok
        | some callback ↦ callback session (drop 4 spdu) (spdu_length - 4)
      ]
    ])

  unfoldable pub connection_data_cb : ℕ → List ℕ → ℕ → M CamReturn
  connection_data_cb connection spdu spdu_length = do
    tag ← checked (get_elem? spdu 0)
    if tag == tag_create_session_response
        then handle_create_session_response spdu spdu_length
        else if tag == tag_open_session_request
        then handle_open_session_request connection spdu spdu_length
        else if tag == tag_close_session_request
        then handle_close_session_request spdu spdu_length
        else if tag == tag_close_session_response
        then handle_close_session_response spdu spdu_length
        else if tag == tag_session_number
        then handle_session_data spdu spdu_length
        else return session_error
