-- ===== src/Cam/Messages.antt =====
-- What the calls of the session and application layers write, as whole messages.
use helia.Common.{
  ℕ, ◌+◌, ◌-◌, ◌^◌, ◌<◌, ◌≡◌, ◌≢◌, ◌↔◌, refl, ap, ◌∙◌, some, List, ◌++◌, append_assoc, length,
  lookup, poke, zeros, zeros-add, length-zeros, poke-zeros, arith,
}
use helia.Cam.LengthField.{calc_length_field_size}
use helia.Cam.State.{CamTlConnection, CamSlSession, Cam}
use helia.Cam.Monad.{done, ◌>>=◌, checked}
use helia.Cam.Transport
use helia.Cam.Transport.{u32, tag_data_last, fill_tpdu, write_tpdu, connection_write}
use helia.Cam.Session
use helia.Cam.Session.{write_spdu}
use helia.Cam.Application
use helia.Cam.Apps.{apdu_buffer, write_apdu}
use helia.Cam.Wire.{
  IsWritten, read_tpdu, read_message, last_tpdu, read_tpdu-tpdu, read_message-tpdu,
}
use helia.Cam.Frames.{
  tpdu, spdu, apdu, RoomFits, sends, connection_write-room, application_write-room, length-apdu,
  calc_length_field_size-le,
}

-- The room for a header fits but for the lengths at which one more byte makes the field longer.
pub RoomFits-iff : (n : ℕ) → n < 2 ^ 32 → RoomFits n ↔ ((n ≢ 254) × (n ≢ 65535) × (n ≢ 2 ^ 24 - 1))
unfolding calc_length_field_size
RoomFits-iff n h = (λ e. (ground arith, ground arith, ground arith), λ e. ground arith)

spdu_buffer :
    (message : List ℕ)
    → length message < 2 ^ 31
    → poke
        (Transport.calc_buffer_size (length message)).1
        message
        (zeros (Transport.calc_buffer_size (length message)).0)
      ≡ some (zeros (4 + calc_length_field_size (length message)) ++ message)
unfolding Transport.calc_buffer_size
spdu_buffer message h =
    let k = calc_length_field_size (length message) in
    let size : u32 (3 + k + 1 + length message) ≡ (4 + k) + length message =
      omega (arith, calc_length_field_size-le (length message)) in
    let offset : 3 + k + 1 ≡ 4 + k = omega arith in rw (size, offset) (poke-zeros (4 + k) message)

write_spdu_lem :
    (id : ℕ) (connection : CamTlConnection) (message : List ℕ) (c : Cam)
    → lookup id c.tl.connections ≡ some connection
    → length message < 2 ^ 31
    → RoomFits (length message)
    → write_spdu id message c
      ≡ done (sends (tpdu connection.slot connection.id tag_data_last message) c)
unfolding write_spdu
write_spdu_lem id connection message c e small fits =
    rw (spdu_buffer message small, ◌>>=◌, checked)
      (rw (
        connection_write-room id connection (zeros (4 + calc_length_field_size (length message)))
            message c e small
            (length-zeros (4 + calc_length_field_size (length message))
              ∙ ap (λ (k : ℕ). 4 + k) fits),
        ◌>>=◌,
      ))

-- A message of the session layer leaves as one write of bytes that are read as one TPDU of the connection,
-- with the tag of a last part and the message, and nothing behind it; if the room for the header fits,
-- and the length of the message with the connection's id is none of those from 128 to 254, for which
-- the length_field is wrong.
pub write_spdu-sends :
    (id : ℕ) (connection : CamTlConnection) (message : List ℕ) (c : Cam)
    → lookup id c.tl.connections ≡ some connection
    → length message < 2 ^ 31
    → RoomFits (length message)
    → IsWritten (1 + length message)
    → (frame : List ℕ) × (write_spdu id message c ≡ done (sends frame c))
      × (read_tpdu frame ≡ some (last_tpdu connection message))
write_spdu-sends id connection message c e small fits h = (
  tpdu connection.slot connection.id tag_data_last message,
  write_spdu_lem id connection message c e small fits,
  read_tpdu-tpdu connection.slot connection.id tag_data_last message h (omega (arith, small)),
)

apdu_buffer_lem :
    (tag : ℕ) (body : List ℕ)
    → length body < 2 ^ 29
    → let k = calc_length_field_size (length body) in
      let m = calc_length_field_size (4 + length (apdu tag body)) in
      apdu_buffer body ≡ some (zeros (4 + m) ++ (zeros 4 ++ (zeros (3 + k) ++ body)))
unfolding apdu_buffer Application.calc_buffer_size Session.calc_buffer_size
    Transport.calc_buffer_size
apdu_buffer_lem tag body h =
    let k = calc_length_field_size (length body) in
    let m = calc_length_field_size (4 + length (apdu tag body)) in
    let whole : u32 (4 + u32 (3 + k + length body)) ≡ 4 + length (apdu tag body) =
      omega (arith, length-apdu tag body, calc_length_field_size-le (length body)) in
    let size : u32 (3 + m + 1 + (4 + length (apdu tag body)))
        ≡ ((4 + m) + (4 + (3 + k))) + length body =
      omega (
        arith,
        length-apdu tag body,
        calc_length_field_size-le (length body),
        calc_length_field_size-le (4 + length (apdu tag body)),
      ) in
    let offset : 3 + m + 1 + 4 + (3 + k) ≡ (4 + m) + (4 + (3 + k)) = omega arith in
    rw (whole, size, offset)
      (poke-zeros ((4 + m) + (4 + (3 + k))) body
        ∙ ap some (rw (zeros-add (4 + m) (4 + (3 + k)), zeros-add 4 (3 + k), append_assoc) refl))

write_apdu_lem :
    (session : CamSlSession) (connection : CamTlConnection) (tag : ℕ) (body : List ℕ) (c : Cam)
    → lookup session.connection c.tl.connections ≡ some connection
    → length body < 2 ^ 29
    → RoomFits (4 + length (apdu tag body))
    → write_apdu session tag body c
      ≡ done (
          sends
            (tpdu connection.slot connection.id tag_data_last
              (spdu session.session_nb (apdu tag body)))
            c)
unfolding write_apdu
write_apdu_lem session connection tag body c e small fits =
    let k = calc_length_field_size (length body) in
    let m = calc_length_field_size (4 + length (apdu tag body)) in
    let five : 1 + (4 + length (apdu tag body)) ≡ 5 + length (apdu tag body) = omega arith in
    rw (apdu_buffer_lem tag body small, ◌>>=◌, checked)
      (rw (
        application_write-room session connection c e tag (zeros (4 + m)) (zeros 4) (zeros (3 + k))
            body small (length-zeros (3 + k)) refl
            (length-zeros (4 + m) ∙ ap (λ (i : ℕ). 4 + i) (fits ∙ ap calc_length_field_size five)),
        ◌>>=◌,
      ))

-- An APDU leaves as one write of bytes that are read as one TPDU of the session's connection, which
-- carries the session's number, the tag and the body, and nothing behind them; if the room for the header
-- fits, and neither the length of the body nor that of the body of the TPDU is one from 128 to 254,
-- for which the length_field is wrong.
pub write_apdu-sends :
    (session : CamSlSession) (connection : CamTlConnection) (tag : ℕ) (body : List ℕ) (c : Cam)
    → lookup session.connection c.tl.connections ≡ some connection
    → session.session_nb < 2 ^ 16
    → tag < 2 ^ 24
    → length body < 2 ^ 29
    → RoomFits (4 + length (apdu tag body))
    → IsWritten (length body)
    → IsWritten (5 + length (apdu tag body))
    → (frame : List ℕ) × (write_apdu session tag body c ≡ done (sends frame c))
      × (read_message frame
          ≡ some (record {
            slot = connection.slot;
            id = connection.id;
            tpdu_tag = 0xA0;
            connection = connection.id;
            session_nb = session.session_nb;
            tag = tag;
            body = body;
          }))
write_apdu-sends session connection tag body c e nb t small fits h w = (
  tpdu connection.slot connection.id tag_data_last (spdu session.session_nb (apdu tag body)),
  write_apdu_lem session connection tag body c e small fits,
  read_message-tpdu connection session.session_nb tag body nb t h small w,
)
