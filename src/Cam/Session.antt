-- ===== src/Cam/Session.antt =====
-- gst/gst-dvb/camsession.c: the messages that the session layer sends.
use helia.Common.{
  ℕ, ◌+◌, ◌-◌, Option, none, some, List, ◌∷◌, ◌++◌, ◌==◌, if◌then◌else◌, length, replicate, insert,
  be16, be32, poke,
}
use helia.Cam.State.{CamReturn, ok, session_too_many_sessions, failed, idle, closing, CamSlSession}
use helia.Cam.Monad.{M, ◌>>=◌, ◌>>◌, return, checked, get, modify_sl, unless_failed, the_session}
use helia.Cam.Transport
use helia.Cam.Transport.{u32, connection_write}

abbrev pub tag_session_number : ℕ
tag_session_number = 0x90

abbrev pub tag_open_session_request : ℕ
tag_open_session_request = 0x91

abbrev pub tag_open_session_response : ℕ
tag_open_session_response = 0x92

abbrev pub tag_create_session : ℕ
tag_create_session = 0x93

abbrev pub tag_create_session_response : ℕ
tag_create_session_response = 0x94

abbrev pub tag_close_session_request : ℕ
tag_close_session_request = 0x95

abbrev pub tag_close_session_response : ℕ
tag_close_session_response = 0x96

unfoldable pub session_new : ℕ → ℕ → ℕ → CamSlSession
session_new connection session_nb resource_id = record {
  connection = connection;
  resource_id = resource_id;
  session_nb = session_nb;
  state = idle;
  user_data = none;
}

-- A buffer for the SPDU, which is stored behind the room for the TPDU's header, and its writing.
unfoldable pub write_spdu : ℕ → List ℕ → M CamReturn
write_spdu connection spdu = do
  let (size, offset) = Transport.calc_buffer_size (length spdu)
  tpdu ← checked (poke offset spdu (replicate size 0))
  (ret, buffer) ← connection_write connection tpdu (length spdu)
  return ret

-- The result and the new session, which is put into no table.
unfoldable pub create_session : ℕ → ℕ → M (CamReturn × Option CamSlSession)
create_session connection resource_id = do
  c ← get
  if c.sl.session_ids == 65535 then return (session_too_many_sessions, none) else (do
    let session_nb = c.sl.session_ids + 1
    let session = session_new connection session_nb resource_id
    modify_sl (λ sl. record sl { session_ids = session_nb })
    ret ← write_spdu connection (tag_create_session ∷ 6 ∷ (be32 resource_id ++ be16 session_nb))
    if failed ret then return (ret, none) else return (ok, some session))

-- A store into a session of the table.
abbrev pub store_session : CamSlSession → M (Unit {0})
store_session session =
    modify_sl (λ sl. record sl { sessions = insert session.session_nb session sl.sessions })

unfoldable pub session_close : ℕ → M CamReturn
session_close nb = do
  session ← the_session nb
  ret ← write_spdu session.connection (tag_close_session_request ∷ 2 ∷ be16 session.session_nb)
  unless_failed ret (do store_session (record session { state = closing }); return ok)

-- `*buffer_size` and `*offset`.
unfoldable pub calc_buffer_size : ℕ → ℕ × ℕ
calc_buffer_size body_length =
    let (size, offset) = Transport.calc_buffer_size (u32 (4 + body_length)) in (size, offset + 4)

unfoldable pub session_write : CamSlSession → List ℕ → ℕ → M (CamReturn × List ℕ)
session_write session buffer body_length = do
  filled ← checked (
      poke (length buffer - body_length - 4) (tag_session_number ∷ 2 ∷ be16 session.session_nb)
        buffer)
  connection_write session.connection filled (4 + body_length)

unfoldable pub send_open_session_response : CamSlSession → ℕ → M CamReturn
send_open_session_response session status =
    write_spdu session.connection (
      tag_open_session_response
      ∷ 7
      ∷ status
      ∷ (be32 session.resource_id ++ be16 session.session_nb))

-- The tag is that of the answer to an OPEN_SESSION_REQUEST, as in the source.
unfoldable pub send_close_session_response : CamSlSession → ℕ → M CamReturn
send_close_session_response session status =
    write_spdu session.connection (tag_open_session_response ∷ 3 ∷ status ∷ be16 session.session_nb)
