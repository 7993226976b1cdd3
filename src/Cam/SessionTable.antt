-- ===== src/Cam/SessionTable.antt =====
-- gst/gst-dvb/camsession.c: the numbers and the table of the sessions.
use helia.Common.{
  ℕ, ◌+◌, ◌≤◌, ◌<◌, ◌≡◌, ◌⊎◌, inl, inr, refl, none, some, List, ◌∷◌, lookup, insert, remove,
  lookup-insert, lookup-remove, drop, be16, be32, ◌++◌, read_be16, Option-cases, arith,
}
use helia.Cam.State.{CamReturn, ok, session_error, closing, CamSlSession, CamSl, Cam}
use helia.Cam.Monad.{Run, done, fault, stuck, ◌>>=◌, checked}
use helia.Cam.Sends.{write_spdu-Sends}
use helia.Cam.Session.{
  session_new, create_session, session_close, write_spdu, tag_create_session,
  tag_close_session_request,
}
use helia.Cam.Spdu.{SlCallbacks, handle_create_session_response, handle_close_session_response}

-- Every session stands in the table under its number, and the numbers were handed out.
pub record IsNumbered (sl : CamSl) : Type 0 where
  pub counted : sl.session_ids ≤ 65535
  pub keyed :
      (nb : ℕ) (s : CamSlSession)
      → lookup nb sl.sessions ≡ some s
      → (s.session_nb ≡ nb) × (0 < nb) × (nb ≤ sl.session_ids)

pub insert-IsNumbered :
    (sl : CamSl) (nb : ℕ) (s : CamSlSession)
    → IsNumbered sl
    → s.session_nb ≡ nb
    → 0 < nb
    → nb ≤ sl.session_ids
    → IsNumbered (record sl { sessions = insert nb s sl.sessions })
insert-IsNumbered sl nb s v e p q = record {
  counted = v.counted;
  keyed = λ k t h. ground (arith, lookup-insert nb k s sl.sessions, v.keyed k t);
}

pub remove-IsNumbered :
    (sl : CamSl) (nb : ℕ)
    → IsNumbered sl
    → IsNumbered (record sl { sessions = remove nb sl.sessions })
remove-IsNumbered sl nb v = record {
  counted = v.counted;
  keyed = λ k t h. ground (arith, lookup-remove nb k sl.sessions, v.keyed k t);
}

-- A number that was not handed out is not in the table.
pub lookup_above :
    (sl : CamSl) (nb : ℕ) → IsNumbered sl → sl.session_ids < nb → lookup nb sl.sessions ≡ none
lookup_above sl nb v h = elim (Option-cases (lookup nb sl.sessions)) [
  | inl e ↦ e
  | inr (s, e) ↦ absurd (omega (arith, v.keyed nb s e))
]

pub Run-cases :
    {A : Type 0} (r : Run (A × Cam))
    → ((a : A) × (c : Cam) × (r ≡ done (a, c))) ⊎ ((r ≡ fault) ⊎ (r ≡ stuck))
Run-cases (done (a, c)) = inl (a, c, refl)
Run-cases fault = inr (inl refl)
Run-cases stuck = inr (inr refl)

write_cases :
    (id : ℕ) (message : List ℕ) (c : Cam)
    → ((a : CamReturn) × (c' : Cam) × (write_spdu id message c ≡ done (a, c')))
      ⊎ ((write_spdu id message c ≡ fault) ⊎ (write_spdu id message c ≡ stuck))
write_cases id message c = Run-cases (write_spdu id message c)

write_spdu-sl :
    (id : ℕ) (message : List ℕ) (c : Cam) (ret : CamReturn) (c' : Cam)
    → write_spdu id message c ≡ done (ret, c')
    → c'.sl ≡ c.sl
write_spdu-sl id message c ret c' h = ((write_spdu-Sends id message).apply c ret c' h).sl

-- What creating a session leaves in the session layer: the next number is used up.
create_session-sl :
    (connection resource_id : ℕ) (c c' : Cam) (session : CamSlSession)
    → create_session connection resource_id c ≡ done ((ok, some session), c')
    → (session.session_nb ≡ c.sl.session_ids + 1)
      × (c'.sl.session_ids ≡ c.sl.session_ids + 1)
      × (c'.sl.sessions ≡ c.sl.sessions)
unfolding create_session session_new
create_session-sl connection resource_id c c' session h =
    let nb = c.sl.session_ids + 1 in
    let counted : Cam = record c { sl = record (c.sl) { session_ids = nb } } in
    let message : List ℕ = tag_create_session ∷ 6 ∷ (be32 resource_id ++ be16 nb) in
    ground (arith, write_spdu-sl connection message counted ok c')

-- A session that the host creates is not put into the table, so the module's answer to it is
-- refused as one for an unknown session, and the session is never opened.
pub create_session_refused :
    (sl : SlCallbacks) (connection resource_id : ℕ) (c c' : Cam) (session : CamSlSession)
    (spdu : List ℕ)
    → IsNumbered c.sl
    → create_session connection resource_id c ≡ done ((ok, some session), c')
    → read_be16 (drop 7 spdu) ≡ some session.session_nb
    → handle_create_session_response sl spdu 9 c' ≡ done (session_error, c')
unfolding handle_create_session_response
create_session_refused sl connection resource_id c c' session spdu v h r =
    let (nb, ids, table) = create_session-sl connection resource_id c c' session h in
    let unknown : lookup session.session_nb c'.sl.sessions ≡ none =
      rw table (lookup_above c.sl session.session_nb v (omega arith)) in
    rw (r, checked) (rw (unknown, ◌>>=◌))

session_close-sessions :
    (nb : ℕ) (s : CamSlSession) (c c' : Cam)
    → lookup nb c.sl.sessions ≡ some s
    → session_close nb c ≡ done (ok, c')
    → c'.sl.sessions ≡ insert s.session_nb (record s { state = closing }) c.sl.sessions
unfolding session_close
session_close-sessions nb s c c' e h =
    let message : List ℕ = tag_close_session_request ∷ 2 ∷ be16 s.session_nb in
    elim (write_cases s.connection message c) [
      | inl (ret, c'', w) ↦ ground (arith, e, w, write_spdu-sl s.connection message c ret c'')
      | inr stops ↦ ground (arith, e, stops)
    ]

-- After the host has closed a session of the table, the session is kept as closing, and the
-- module's answer is refused: the session stays in the table.
pub session_close_refused :
    (sl : SlCallbacks) (nb : ℕ) (c c' : Cam) (spdu : List ℕ)
    → IsNumbered c.sl
    → session_close nb c ≡ done (ok, c')
    → read_be16 (drop 3 spdu) ≡ some nb
    → ((s : CamSlSession) × (lookup nb c'.sl.sessions ≡ some s) × (s.state ≡ closing))
      × (handle_close_session_response sl spdu 5 c' ≡ done (session_error, c'))
unfolding handle_close_session_response session_close
session_close_refused sl nb c c' spdu v h r = elim (Option-cases (lookup nb c.sl.sessions)) [
  | inl e ↦ ground (arith, e)
  | inr (s, e) ↦
      let table = session_close-sessions nb s c c' e h in
      let (own, above, below) = v.keyed nb s e in
      let found : lookup nb c'.sl.sessions ≡ some (record s { state = closing }) =
        rw (table, lookup-insert, own) (ground arith) in
      ((record s { state = closing }, found, refl), rw (r, checked) (rw (found, ◌>>=◌)))
]
