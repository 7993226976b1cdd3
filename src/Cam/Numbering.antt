-- ===== src/Cam/Numbering.antt =====
-- gst/gst-dvb/camsession.c: the handlers keep the table of the sessions numbered, for every upper
-- layer whose callbacks leave the session layer's state alone.
pub mod Rules
use helia.Common.{
  ℕ, ◌+◌, ◌-◌, ◌≤◌, ◌<◌, ◌≡◌, ◌≢◌, refl, sym, subst, Bool, true, false, Option, none, some, List,
  ◌==◌, if◌then◌else◌, lookup, remove, drop, get_elem?, read_be16, read_be32, arith,
}
use helia.Cam.State.{
  CamReturn, ok, session_error, session_too_many_sessions, failed, SessionState, idle, opening,
  active, closing, CamSlSession, CamSl, Cam,
}
use helia.Cam.Monad.{done, M, ◌>>=◌, ◌>>◌, return, get, checked, modify_sl, unless_failed}
use helia.Cam.Effects.{
  >>=-done, Preorder, Respects, Respects-bind, Respects-return, Respects-if, Respects-checked,
  Respects-returns,
}
use helia.Cam.Sends.{write_spdu-Sends}
use helia.Cam.SessionTable.{IsNumbered, insert-IsNumbered, remove-IsNumbered}
use helia.Cam.Session.{
  tag_session_number, tag_open_session_request, tag_create_session_response,
  tag_close_session_request, tag_close_session_response, session_new, store_session, write_spdu,
  send_open_session_response, send_close_session_response,
}
use helia.Cam.Numbering.Rules.{
  Numbered, Keeps, Keeps-preorder, same_sl, bind, ending, branch, checking, sending, storing,
  removing, looking_up, next_number, by_state,
}
use helia.Cam.Spdu.{
  SlCallbacks, notify, request, answer_open_request, handle_open_session_request,
  handle_create_session_response, close_session, handle_close_session_request,
  handle_close_session_response, handle_session_data, connection_data_cb,
}

-- What the session layer relies on: a callback does not touch its state, and the answer to a request
-- is about the same session.
pub record KeepsSessions (sl : SlCallbacks) : Type 0 where
  pub requested :
      (s : CamSlSession) (c : Cam) (ret : CamReturn) (status : ℕ) (s' : CamSlSession) (c' : Cam)
      → request sl.open_session_request s c ≡ done ((ret, status, s'), c')
      → (c'.sl ≡ c.sl) × (s'.session_nb ≡ s.session_nb)
  pub opened :
      (s : CamSlSession) (c : Cam) (ret : CamReturn) (c' : Cam)
      → notify sl.session_opened s c ≡ done (ret, c')
      → c'.sl ≡ c.sl
  pub closed :
      (s : CamSlSession) (c : Cam) (ret : CamReturn) (c' : Cam)
      → notify sl.session_closed s c ≡ done (ret, c')
      → c'.sl ≡ c.sl
  pub delivered :
      (callback : CamSlSession → List ℕ → ℕ → M CamReturn)
      → sl.session_data ≡ some callback
      → (s : CamSlSession) (bytes : List ℕ) (n : ℕ) (c : Cam) (ret : CamReturn) (c' : Cam)
      → callback s bytes n c ≡ done (ret, c')
      → c'.sl ≡ c.sl

module _ (sl : SlCallbacks) (keeps : KeepsSessions sl) where
  notify_opened-Keeps : (k : ℕ) (s : CamSlSession) → Respects (Keeps k) (notify sl.session_opened s)
  notify_opened-Keeps k s = same_sl k (notify sl.session_opened s) (keeps.opened s)

  close_session-Keeps : (k : ℕ) (s : CamSlSession) → Respects (Keeps k) (close_session sl s)
  close_session-Keeps k s =
      bind k (notify sl.session_closed s) _
        (same_sl k (notify sl.session_closed s) (keeps.closed s))
        λ ret. bind k _ _ (removing k s.session_nb) λ _. ending k ret

  store_opened :
      (s : CamSlSession)
      → 0 < s.session_nb
      → Respects (Keeps s.session_nb) (
          store_session (record s { state = active })
          >> notify sl.session_opened (record s { state = active }))
  store_opened s above =
      bind s.session_nb _ _ (storing s.session_nb (record s { state = active }) above (omega arith))
        λ _. notify_opened-Keeps s.session_nb (record s { state = active })

  create_response-Keeps :
      (spdu : List ℕ) (n : ℕ) → Respects (Keeps 0) (handle_create_session_response sl spdu n)
  unfolding handle_create_session_response
  create_response-Keeps spdu n = branch 0 _ _ _ (ending 0 session_error) (
      bind 0 _ _ (checking 0 (read_be16 (drop 7 spdu))) λ nb.
        looking_up nb _ _ (ending 0 session_error) λ s above.
          (let opened = store_opened s above in
            by_state s.session_nb s.state _ _ _ _ opened opened opened (ending s.session_nb ok)))

  close_request-Keeps :
      (spdu : List ℕ) (n : ℕ) → Respects (Keeps 0) (handle_close_session_request sl spdu n)
  unfolding handle_close_session_request send_close_session_response
  close_request-Keeps spdu n = branch 0 _ _ _ (ending 0 session_error) (
      bind 0 _ _ (checking 0 (read_be16 (drop 2 spdu))) λ nb.
        looking_up nb _ _ (ending 0 ok) λ s above.
          (let k = s.session_nb in
            let sent : (status : ℕ) → Respects (Keeps k) (send_close_session_response s status) =
              λ status. sending k s.connection _ in
            let closing_it = bind k _ _ (sent 0) λ ret. branch k (failed ret) _ _ (ending k ret) (
              bind k _ _ (close_session-Keeps k s)
                λ closed. branch k (failed closed) _ _ (ending k closed) (ending k ok)) in
            by_state k s.state _ _ _ _ closing_it closing_it closing_it (
              bind k _ _ (sent 0xF0)
                λ ret. branch k (failed ret) _ _ (ending k ret) (ending k ok))))

  close_response-Keeps :
      (spdu : List ℕ) (n : ℕ) → Respects (Keeps 0) (handle_close_session_response sl spdu n)
  unfolding handle_close_session_response
  close_response-Keeps spdu n = branch 0 _ _ _ (ending 0 session_error) (
      bind 0 _ _ (checking 0 (read_be16 (drop 3 spdu))) λ nb.
        looking_up nb _ _ (ending 0 session_error) λ s above.
          (let k = s.session_nb in
            let refused = ending k session_error in
            by_state k s.state _ _ _ _ refused refused (close_session-Keeps k s) refused))

  session_data-Keeps : (spdu : List ℕ) (n : ℕ) → Respects (Keeps 0) (handle_session_data sl spdu n)
  unfolding handle_session_data
  session_data-Keeps spdu n = branch 0 _ _ _ (ending 0 session_error) (
      bind 0 _ _ (checking 0 (read_be16 (drop 2 spdu))) λ nb.
        looking_up nb _ _ (ending 0 session_error)
          λ s above. go s.session_nb s (drop 4 spdu) (n - 4) sl.session_data refl)
    where
      go :
          (k : ℕ) (s : CamSlSession) (bytes : List ℕ) (size : ℕ)
          (o : Option (CamSlSession → List ℕ → ℕ → M CamReturn))
          → sl.session_data ≡ o
          → Respects (Keeps k) (elim o [ none ↦ return ok | some callback ↦ callback s bytes size ])
      go k s bytes size none e = ending k ok
      go k s bytes size (some callback) e =
          same_sl k (callback s bytes size) (keeps.delivered callback e s bytes size)

  answer-Keeps :
      (s : CamSlSession) (status : ℕ)
      → 0 < s.session_nb
      → Respects (Keeps s.session_nb) (answer_open_request sl s status)
  unfolding answer_open_request send_open_session_response
  answer-Keeps s status above =
      let k = s.session_nb in
      bind k _ _ (sending k s.connection _) λ ret. branch k (failed ret) _ _ (ending k ret) (
        branch k (status == 0) _ _
          (bind k _ _ (storing k (record s { state = active }) above (omega arith)) λ _.
            bind k _ _ (notify_opened-Keeps k (record s { state = active }))
              λ notified. branch k (failed notified) _ _ (ending k notified) (ending k ok))
          (ending k ok))

  -- The session that the callback answers about has a number that was just handed out.
  after_request :
      (s : CamSlSession) (c : Cam) (a : CamReturn) (c' : Cam)
      → 0 < s.session_nb
      → Numbered s.session_nb c
      → (request sl.open_session_request s >>= λ answer.
            unless_failed answer.0 (answer_open_request sl answer.2 answer.1))
          c
        ≡ done (a, c')
      → Numbered 0 c'
  after_request s c a c' above v e =
      let ((ret, status, s'), c₁, e₁, e₂) = >>=-done (request sl.open_session_request s) _ c e in
      let (table, own) = keeps.requested s c ret status s' c₁ e₁ in
      let k = s'.session_nb in
      let v₁ : Numbered k c₁ = rw (table, own) v in
      let v₂ =
        (branch k (failed ret) _ _ (ending k ret) (answer-Keeps s' status (omega arith))).apply c₁ a
          c' e₂ v₁ in
      (v₂.0, omega arith)

  open_request-Keeps :
      (connection : ℕ) (spdu : List ℕ) (n : ℕ)
      → Respects (Keeps 0) (handle_open_session_request sl connection spdu n)
  unfolding handle_open_session_request session_new
  open_request-Keeps connection spdu n = branch 0 _ _ _ (ending 0 session_error) (
      bind 0 _ _ (checking 0 (read_be32 (drop 2 spdu))) λ resource_id. record {
        apply = λ c a c' e v. go resource_id c a c' v (c.sl.session_ids == 65535) refl e;
      })
    where
      counted : Cam → Cam
      counted c = record c { sl = record (c.sl) { session_ids = c.sl.session_ids + 1 } }

      go :
          (resource_id : ℕ) (c : Cam) (a : CamReturn) (c' : Cam)
          → Numbered 0 c
          → (full : Bool) → (c.sl.session_ids == 65535) ≡ full
          → (if full
                then return session_too_many_sessions
                else (modify_sl (λ s. record s { session_ids = c.sl.session_ids + 1 })
                    >> (request sl.open_session_request
                          (session_new connection (c.sl.session_ids + 1) resource_id)
                        >>= λ answer.
                            unless_failed answer.0 (answer_open_request sl answer.2 answer.1))))
              c
            ≡ done (a, c')
          → Numbered 0 c'
      go resource_id c a c' v true full e = (ending 0 session_too_many_sessions).apply c a c' e v
      go resource_id c a c' v false room e =
          after_request (session_new connection (c.sl.session_ids + 1) resource_id) (counted c) a c'
            (omega arith) (next_number c.sl v.0 (ground arith), omega arith) e

  connection_data-Keeps :
      (connection : ℕ) (spdu : List ℕ) (n : ℕ)
      → Respects (Keeps 0) (connection_data_cb sl connection spdu n)
  unfolding connection_data_cb
  connection_data-Keeps connection spdu n = bind 0 _ _ (checking 0 (get_elem? spdu 0)) λ tag.
      branch 0 (tag == tag_create_session_response) _ _ (create_response-Keeps spdu n) (
        branch 0 (tag == tag_open_session_request) _ _ (open_request-Keeps connection spdu n) (
          branch 0 (tag == tag_close_session_request) _ _ (close_request-Keeps spdu n) (
            branch 0 (tag == tag_close_session_response) _ _ (close_response-Keeps spdu n) (
              branch 0 (tag == tag_session_number) _ _ (session_data-Keeps spdu n)
                (ending 0 session_error)))))

  -- Whatever SPDU the module sends, if its handling ends then the table is numbered as before: every
  -- session stands under its own number, which was handed out, and no more than 65535 were.
  pub connection_data_cb-IsNumbered :
      (connection : ℕ) (spdu : List ℕ) (n : ℕ) (c : Cam) (ret : CamReturn) (c' : Cam)
      → connection_data_cb sl connection spdu n c ≡ done (ret, c')
      → IsNumbered c.sl
      → IsNumbered c'.sl
  connection_data_cb-IsNumbered connection spdu n c ret c' e v =
      ((connection_data-Keeps connection spdu n).apply c ret c' e (v, omega arith)).0
