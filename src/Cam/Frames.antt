-- ===== src/Cam/Frames.antt =====
-- What the three layers of gst/gst-dvb/camtransport.c, camsession.c and camapplication.c pass to
-- `write`, laid out with the length_field that camutils.c writes.
use helia.Common.{
  ℕ, ◌+◌, ◌-◌, ◌/◌, ◌%◌, ◌^◌, ◌≤◌, ◌<◌, ◌≡◌, refl, sym, ap, some, List, [], ◌∷◌, ◌++◌, append_assoc,
  if◌then◌else◌, length, length-append, split_at, lookup, be16, poke, poke_at, arith, Bool-cases,
  inl, inr,
}
use helia.Cam.LengthField.{calc_length_field_size, write_length_field}
use helia.Cam.LengthField.RoundTrip.{length-write_length_field}
use helia.Cam.State.{CamReturn, ok, transport_error, CamTlConnection, CamSlSession, Cam, wrote}
use helia.Cam.Monad.{done, ◌>>=◌, checked}
use helia.Cam.Transport.{u32, tag_data_last, fill_tpdu, write_tpdu, connection_write}
use helia.Cam.Session.{session_write}
use helia.Cam.Application.{application_write, fill_apdu}
use helia.Common.Maybe

-- The bytes that the transport layer writes for a slot and a connection, with the length_field of camutils.c;
-- the connection's id counts as part of the body.
unfoldable pub tpdu : ℕ → ℕ → ℕ → List ℕ → List ℕ
tpdu slot id tag body =
    (slot ∷ id ∷ tag ∷ []) ++ (write_length_field (1 + length body) ++ (id ∷ body))

-- What the session layer puts before an APDU.
unfoldable pub spdu : ℕ → List ℕ → List ℕ
spdu session_nb body = (0x90 ∷ 2 ∷ be16 session_nb) ++ body

-- The tag of an APDU, the length_field of camutils.c, and the body.
unfoldable pub apdu : ℕ → List ℕ → List ℕ
apdu tag body =
    (tag / 2 ^ 16 % 256 ∷ tag / 2 ^ 8 % 256 ∷ tag % 256 ∷ [])
    ++ (write_length_field (length body) ++ body)

pub length-spdu : (session_nb : ℕ) (body : List ℕ) → length (spdu session_nb body) ≡ 4 + length body
unfolding spdu
length-spdu session_nb body = omega arith

-- The room that is made for a TPDU's header is the room that the header takes.
abbrev pub RoomFits : ℕ → Type 0
RoomFits n = calc_length_field_size n ≡ calc_length_field_size (1 + n)

-- One `write` of the bytes, and the result by its success.
abbrev pub sends : List ℕ → Cam → CamReturn × Cam
sends bytes c =
    if c.os.write c.log bytes
    then (
      ok,
      record c {
        log = wrote bytes ∷ c.log;
        tl = record (c.tl) { expected_tpdus = u32 (c.tl.expected_tpdus + 1) };
      },
    )
    else (transport_error, record c { log = wrote bytes ∷ c.log })

pub fill_tpdu-frame :
    (slot id tag n : ℕ) (r3 rl r1 body : List ℕ)
    → length r3 ≡ 3
    → length rl ≡ calc_length_field_size n
    → length r1 ≡ 1
    → fill_tpdu slot id tag (r3 ++ (rl ++ (r1 ++ body))) n
      ≡ some ((slot ∷ id ∷ tag ∷ []) ++ (write_length_field n ++ (id ∷ body)))
unfolding fill_tpdu
fill_tpdu-frame slot id tag n r3 rl r1 body h3 hl h1 =
    let head : List ℕ = slot ∷ id ∷ tag ∷ [] in
    rw
      (
        poke_at 0 [] head r3 (rl ++ (r1 ++ body)) refl (omega arith),
        poke_at 3 head (write_length_field n) rl (r1 ++ body) refl
            (omega (arith, length-write_length_field n)),
      )
      (poke_at (3 + calc_length_field_size n) (slot ∷ id ∷ tag ∷ write_length_field n) (id ∷ []) r1
        body (omega (arith, length-write_length_field n)) (omega arith))

pub write_tpdu_lem :
    (connection : CamTlConnection) (tag n : ℕ) (buffer frame : List ℕ) (c : Cam)
    → fill_tpdu connection.slot connection.id tag buffer n ≡ some frame
    → write_tpdu connection tag buffer n c ≡ done (((sends frame c).0, frame), (sends frame c).1)
unfolding write_tpdu
write_tpdu_lem connection tag n buffer frame c e =
    rw e (elim (Bool-cases (c.os.write c.log frame)) [ inl s ↦ rw s | inr s ↦ rw s ])

pub fill_tpdu-room :
    (slot id tag n : ℕ) (room body : List ℕ)
    → length room ≡ 4 + calc_length_field_size n
    → fill_tpdu slot id tag (room ++ body) n
      ≡ some ((slot ∷ id ∷ tag ∷ []) ++ (write_length_field n ++ (id ∷ body)))
fill_tpdu-room slot id tag n room body h =
    let (r3, r, e, l3) = split_at 3 room (omega arith) in
    let after : length r ≡ calc_length_field_size n + 1 =
      omega (arith, ap length e, length-append r3 r) in
    let (rl, r1, e', ll) = split_at (calc_length_field_size n) r (omega arith) in
    rw (e, e', append_assoc, append_assoc)
      (fill_tpdu-frame slot id tag n r3 rl r1 body l3 ll
        (omega (arith, ap length e', length-append rl r1)))

pub calc_length_field_size-le : (n : ℕ) → calc_length_field_size n ≤ 5
unfolding calc_length_field_size
calc_length_field_size-le n = ground arith

pub length-apdu :
    (tag : ℕ) (body : List ℕ)
    → length (apdu tag body) ≡ 3 + calc_length_field_size (length body) + length body
unfolding apdu
length-apdu tag body = omega (
  arith,
  length-append (write_length_field (length body)) body,
  length-write_length_field (length body),
)

fill_apdu-parts :
    (tag : ℕ) (front ra rl body : List ℕ)
    → length ra ≡ 3
    → length rl ≡ calc_length_field_size (length body)
    → fill_apdu tag (front ++ (ra ++ (rl ++ body))) (length body) ≡ some (front ++ apdu tag body)
unfolding fill_apdu apdu
fill_apdu-parts tag front ra rl body l l' =
    let k = calc_length_field_size (length body) in
    let tags : List ℕ = tag / 2 ^ 16 % 256 ∷ tag / 2 ^ 8 % 256 ∷ tag % 256 ∷ [] in
    let place : length (front ++ (ra ++ (rl ++ body))) - length body - (3 + k) ≡ length front =
      omega (
        arith,
        length-append front (ra ++ (rl ++ body)),
        length-append ra (rl ++ body),
        length-append rl body,
      ) in
    let field : List ℕ = write_length_field (length body) in
    let second : poke (length front + 3) field (front ++ (tags ++ (rl ++ body)))
        ≡ some (front ++ (tags ++ (field ++ body))) =
      rw (← append_assoc front tags (rl ++ body), ← append_assoc front tags (field ++ body))
        (poke_at (length front + 3) (front ++ tags) field rl body
          (omega (arith, length-append front tags))
          (omega (arith, length-write_length_field (length body)))) in
    rw (place, poke_at (length front) front tags ra (rl ++ body) refl (sym l), Maybe.◌>>=◌) second

pub fill_apdu-room :
    (tag : ℕ) (front header body : List ℕ)
    → length header ≡ 3 + calc_length_field_size (length body)
    → fill_apdu tag (front ++ (header ++ body)) (length body) ≡ some (front ++ apdu tag body)
fill_apdu-room tag front header body h =
    let (ra, rl, e, l) = split_at 3 header (omega arith) in
    rw (e, append_assoc)
      (fill_apdu-parts tag front ra rl body l (omega (arith, ap length e, length-append ra rl)))

-- The layers write a message from a buffer that has room for their headers in front of it.
pub connection_write-room :
    (id : ℕ) (connection : CamTlConnection) (room body : List ℕ) (c : Cam)
    → lookup id c.tl.connections ≡ some connection
    → length body < 2 ^ 31
    → length room ≡ 4 + calc_length_field_size (1 + length body)
    → let frame = tpdu connection.slot connection.id tag_data_last body in
      connection_write id (room ++ body) (length body) c
      ≡ done (((sends frame c).0, frame), (sends frame c).1)
unfolding connection_write tpdu
connection_write-room id connection room body c e small h =
    let wrap : u32 (1 + length body) ≡ 1 + length body = omega arith in
    rw (e, ◌>>=◌, checked)
      (rw wrap (
        write_tpdu_lem connection tag_data_last (1 + length body) (room ++ body)
          (tpdu connection.slot connection.id tag_data_last body) c
          (fill_tpdu-room connection.slot connection.id tag_data_last (1 + length body) room body
            h)))

module _ (session : CamSlSession) (connection : CamTlConnection) (c : Cam)
    (connected : lookup session.connection c.tl.connections ≡ some connection) where
  -- The TPDU that carries a message of the session layer.
  abbrev pub carried : List ℕ → List ℕ
  carried message = tpdu connection.slot connection.id tag_data_last message

  pub session_write-room :
      (room r4 body : List ℕ)
      → length body < 2 ^ 30
      → length r4 ≡ 4
      → length room ≡ 4 + calc_length_field_size (5 + length body)
      → session_write session (room ++ (r4 ++ body)) (length body) c
        ≡ done (
          (
            (sends (carried (spdu session.session_nb body)) c).0,
            carried (spdu session.session_nb body),
          ),
          (sends (carried (spdu session.session_nb body)) c).1,
        )
  unfolding session_write spdu
  session_write-room room r4 body small h4 h =
      let place : length (room ++ (r4 ++ body)) - length body - 4 ≡ length room =
        omega (arith, length-append room (r4 ++ body), length-append r4 body) in
      let message = spdu session.session_nb body in
      let four : 4 + length body ≡ length message = omega arith in
      let five : 1 + length message ≡ 5 + length body = omega arith in
      rw
        (
          place,
          poke_at (length room) room (0x90 ∷ 2 ∷ be16 session.session_nb) r4 body refl (sym h4),
          ◌>>=◌,
          checked,
        )
        (rw four (
          connection_write-room session.connection connection room message c connected (omega arith)
            (rw five h)))

  -- The room in front of the body is that of the headers of all three layers.
  pub application_write-room :
      (tag : ℕ) (room r4 header body : List ℕ)
      → length body < 2 ^ 29
      → length header ≡ 3 + calc_length_field_size (length body)
      → length r4 ≡ 4
      → length room ≡ 4 + calc_length_field_size (5 + length (apdu tag body))
      → let frame = carried (spdu session.session_nb (apdu tag body)) in
        application_write session tag (room ++ (r4 ++ (header ++ body))) (length body) c
        ≡ done (((sends frame c).0, frame), (sends frame c).1)
  unfolding application_write
  application_write-room tag room r4 header body small hh h4 hr =
      let filled : fill_apdu tag (room ++ (r4 ++ (header ++ body))) (length body)
          ≡ some (room ++ (r4 ++ apdu tag body)) =
        rw (← append_assoc room r4 (header ++ body), ← append_assoc room r4 (apdu tag body))
          (fill_apdu-room tag (room ++ r4) header body hh) in
      rw (filled, ◌>>=◌, checked)
        (rw (← length-apdu tag body) (
          session_write-room room r4 (apdu tag body)
            (omega (arith, length-apdu tag body, calc_length_field_size-le (length body))) h4 hr))
