-- ===== src/Tests/Layers.antt =====
-- The layers at concrete inputs.
use helia.Common.{
  ℕ, ◌+◌, ◌≡◌, inl, refl, none, some, List, [], ◌∷◌, ◌++◌, ◌⊎◌, lookup, drop, read_be16, arith,
  poke, length,
}
use helia.Cam.LengthField.{calc_length_field_size, write_length_field}
use helia.Cam.State.{
  Os, ok, session_error, Cam, CamSlSession, closing, resource_manager, App, transport_error,
}
use helia.Cam.Monad.{done, fault, the_session, the_application}
use helia.Cam.Transport
use helia.Cam.Transport.{connection_write, write_tpdu, fill_tpdu, tag_data_last}
use helia.Cam.Session
use helia.Cam.Session.{
  write_spdu, create_session, session_close, session_new, session_write, send_open_session_response,
}
use helia.Cam.Spdu.{
  connection_data_cb, handle_open_session_request, answer_open_request,
  handle_create_session_response, handle_close_session_response,
}
use helia.Cam.Application
use helia.Cam.Application.{application_write, fill_apdu}
use helia.Cam.Apps.{
  apdu_buffer, write_apdu, send_simple, app_open, app_session_request, tag_profile_enquiry,
}
use helia.Cam.Apdu.{
  al_callbacks, open_session_request_cb, session_opened_cb, status_open, status_not_found,
}
use helia.Cam.Frames.{RoomFits, apdu, sends}
use helia.Cam.Wire.{read_tpdu, read_message, last_tpdu}
use helia.Cam.Messages.{write_spdu-sends, write_apdu-sends}
use helia.Cam.SessionTable.{IsNumbered, create_session_refused, session_close_refused}
use helia.Cam.Numbering.{connection_data_cb-IsNumbered}
use helia.Cam.Stack.{
  IsInstalled, accepted, open_session_request_outcome, al_callbacks-KeepsSessions,
}
use helia.Cam.Dangling.{counted, open_session_dangling}
use helia.Tests.Data.{quiet_os, broken_os, connection_one, session_one, idle_cam, busy_cam, ending}

idle-IsInstalled : (os : Os) → IsInstalled (idle_cam os)
unfolding lookup
idle-IsInstalled os = record { own_id = λ id app e. ground arith }

idle-IsNumbered : (os : Os) → IsNumbered ((idle_cam os).sl)
unfolding lookup
idle-IsNumbered os = record { counted = omega arith; keyed = λ nb s e. ground arith }

busy-IsNumbered : (os : Os) → IsNumbered ((busy_cam os).sl)
unfolding lookup
busy-IsNumbered os = record { counted = omega arith; keyed = λ nb s e. ground arith }

abbrev close_request : List ℕ
close_request = 0x95 ∷ 2 ∷ 0 ∷ 1 ∷ []

close_request-RoomFits : RoomFits (length close_request)
unfolding calc_length_field_size
close_request-RoomFits = refl

enquiry-RoomFits : RoomFits (4 + length (apdu tag_profile_enquiry []))
unfolding calc_length_field_size apdu write_length_field
enquiry-RoomFits = refl

write_spdu-sends_example :
    (frame : List ℕ) × (write_spdu 1 close_request (busy_cam quiet_os)
      ≡ done (sends frame (busy_cam quiet_os)))
    × (read_tpdu frame ≡ some (last_tpdu connection_one close_request))
unfolding lookup
write_spdu-sends_example =
    write_spdu-sends 1 connection_one close_request (busy_cam quiet_os) refl (omega arith)
      close_request-RoomFits (inl (omega arith))

write_apdu-sends_example :
    (frame : List ℕ) × (write_apdu session_one tag_profile_enquiry [] (busy_cam quiet_os)
      ≡ done (sends frame (busy_cam quiet_os)))
    × (read_message frame
        ≡ some (record {
          slot = 0;
          id = 1;
          tpdu_tag = 0xA0;
          connection = 1;
          session_nb = 1;
          tag = tag_profile_enquiry;
          body = [];
        }))
unfolding lookup apdu write_length_field
write_apdu-sends_example =
    write_apdu-sends session_one connection_one tag_profile_enquiry [] (busy_cam quiet_os) refl
      (omega arith) (omega arith) (omega arith) enquiry-RoomFits (inl (omega arith))
      (inl (omega arith))

abbrev created : Cam
created = ending (busy_cam quiet_os) (create_session 1 0x10041 (busy_cam quiet_os))

creating :
    create_session 1 0x10041 (busy_cam quiet_os)
    ≡ done ((ok, some (session_new 1 2 0x10041)), created)
unfolding create_session write_spdu Transport.calc_buffer_size connection_write write_tpdu fill_tpdu
    calc_length_field_size write_length_field lookup poke
creating = refl

abbrev create_response : List ℕ
create_response = 0x94 ∷ 7 ∷ 0 ∷ 0 ∷ 1 ∷ 0 ∷ 65 ∷ 0 ∷ 2 ∷ []

create_response-number :
    read_be16 (drop 7 create_response) ≡ some ((session_new 1 2 0x10041).session_nb)
unfolding session_new
create_response-number = refl

create_session_refused_example :
    handle_create_session_response al_callbacks create_response 9 created
    ≡ done (session_error, created)
create_session_refused_example =
    create_session_refused al_callbacks 1 0x10041 (busy_cam quiet_os) created
      (session_new 1 2 0x10041) create_response (busy-IsNumbered quiet_os) creating
      create_response-number

abbrev after_close : Cam
after_close = ending (busy_cam quiet_os) (session_close 1 (busy_cam quiet_os))

closing_it : session_close 1 (busy_cam quiet_os) ≡ done (ok, after_close)
unfolding session_close write_spdu Transport.calc_buffer_size connection_write write_tpdu fill_tpdu
    calc_length_field_size write_length_field lookup poke
closing_it = refl

abbrev close_response : List ℕ
close_response = 0x96 ∷ 3 ∷ 0 ∷ 0 ∷ 1 ∷ []

session_close_refused_example :
    ((s : CamSlSession) × (lookup 1 after_close.sl.sessions ≡ some s) × (s.state ≡ closing))
    × (handle_close_session_response al_callbacks close_response 5 after_close
        ≡ done (session_error, after_close))
session_close_refused_example =
    session_close_refused al_callbacks 1 (busy_cam quiet_os) after_close close_response
      (busy-IsNumbered quiet_os) closing_it refl

abbrev open_request : List ℕ
open_request = 0x91 ∷ 4 ∷ 0 ∷ 1 ∷ 0 ∷ 65 ∷ []

abbrev after_open : Cam
after_open =
    ending (idle_cam quiet_os)
      (connection_data_cb al_callbacks 1 open_request 6 (idle_cam quiet_os))

opening_it :
    connection_data_cb al_callbacks 1 open_request 6 (idle_cam quiet_os) ≡ done (ok, after_open)
unfolding connection_data_cb handle_open_session_request answer_open_request session_new
    open_session_request_cb app_session_request send_open_session_response session_opened_cb
    app_open send_simple write_apdu apdu_buffer Application.calc_buffer_size
    Session.calc_buffer_size application_write fill_apdu session_write write_spdu
    Transport.calc_buffer_size connection_write write_tpdu fill_tpdu calc_length_field_size
    write_length_field lookup poke
opening_it = refl

connection_data_cb-IsNumbered_example : IsNumbered after_open.sl
connection_data_cb-IsNumbered_example =
    connection_data_cb-IsNumbered al_callbacks al_callbacks-KeepsSessions 1 open_request 6
      (idle_cam quiet_os) ok after_open opening_it (idle-IsNumbered quiet_os)

abbrev asked : CamSlSession
asked = session_new 1 1 0x10041

open_session_request_outcome_example :
    ((lookup asked.resource_id (idle_cam quiet_os).applications ≡ none)
      × (open_session_request_cb asked (idle_cam quiet_os)
          ≡ done ((ok, status_not_found, asked), idle_cam quiet_os)))
    ⊎ ((app : App) × (lookup asked.resource_id (idle_cam quiet_os).applications ≡ some app)
        × (open_session_request_cb asked (idle_cam quiet_os)
            ≡ done (
              (ok, status_open, record asked { user_data = some app }),
              accepted app asked (idle_cam quiet_os),
            )))
open_session_request_outcome_example =
    open_session_request_outcome asked (idle_cam quiet_os) (idle-IsInstalled quiet_os)

abbrev accepted_one : CamSlSession
accepted_one = record asked { user_data = some resource_manager }

abbrev before_answer : Cam
before_answer = accepted resource_manager asked (counted (idle_cam broken_os))

abbrev unanswered : Cam
unanswered = ending before_answer (send_open_session_response accepted_one 0 before_answer)

answering :
    send_open_session_response accepted_one 0 before_answer ≡ done (transport_error, unanswered)
unfolding session_new send_open_session_response write_spdu Transport.calc_buffer_size
    connection_write write_tpdu fill_tpdu calc_length_field_size write_length_field lookup poke
answering = refl

open_session_dangling_example :
    (handle_open_session_request al_callbacks 1 open_request 6 (idle_cam broken_os)
      ≡ done (transport_error, unanswered))
    × ((the_application resource_manager unanswered).sessions ≡ [] ++ ((0 + 1) ∷ []))
    × (the_session (0 + 1) unanswered ≡ fault)
unfolding lookup
open_session_dangling_example =
    open_session_dangling 1 0x10041 resource_manager open_request (idle_cam broken_os) unanswered
      transport_error (idle-IsInstalled broken_os) (idle-IsNumbered broken_os) (omega arith) refl
      refl answering refl
