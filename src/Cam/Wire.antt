-- ===== src/Cam/Wire.antt =====
-- Readers of the messages of EN 50221, by the layout of a length_field in the comment of
-- gst/gst-dvb/camutils.c: below 128 one byte with the length, else a byte with the top bit and the number
-- of the bytes that hold it. They share nothing with the functions of that file.
use helia.Common.{
  ℕ, ◌+◌, ◌-◌, ◌*◌, ◌/◌, ◌%◌, ◌^◌, ◌≤◌, ◌<◌, ◌≡◌, refl, ap, subst, ◌⊎◌, Option, none, some, List,
  [], ◌∷◌, ◌++◌, length, take, drop, true, ltb, leb, ◌==◌, if◌then◌else◌, arith,
}
use helia.Common.Maybe.{◌>>=◌}
use helia.Cam.LengthField.{write_length_field}
use helia.Cam.State.{CamTlConnection}
use helia.Cam.Frames.{tpdu, spdu, apdu, length-spdu, length-apdu, calc_length_field_size-le}

-- The highest byte comes first.
unfoldable pub value_of : ℕ → List ℕ → ℕ
value_of high [] = high
value_of high (b ∷ bs) = value_of (high * 256 + b) bs

-- The length, and what follows the field.
unfoldable pub read_field : List ℕ → Option (ℕ × List ℕ)
read_field [] = none
read_field (b ∷ r) =
    if ltb b 128
    then some (b, r)
    else if leb (b - 128) (length r)
    then some (value_of 0 (take (b - 128) r), drop (b - 128) r)
    else none

-- A body with its length in front, and nothing behind it.
unfoldable pub read_body : List ℕ → Option (List ℕ)
read_body bytes = do (n, body) ← read_field bytes; if n == length body then some body else none

pub record TpduView : Type 0 where
  pub slot : ℕ
  pub id : ℕ
  pub tag : ℕ
  pub connection : ℕ
  pub message : List ℕ

abbrev pub tpdu_view : ℕ → ℕ → ℕ → List ℕ → Option TpduView
tpdu_view slot id tag [] = none
tpdu_view slot id tag (connection ∷ message) =
    some (record { slot = slot; id = id; tag = tag; connection = connection; message = message })

-- The slot, the id of the connection, the tag, and a body that starts with the id of the connection.
unfoldable pub read_tpdu : List ℕ → Option TpduView
read_tpdu (slot ∷ id ∷ tag ∷ bytes) = do body ← read_body bytes; tpdu_view slot id tag body
read_tpdu _ = none

-- session_number: its tag, the length 2, and the number.
unfoldable pub read_spdu : List ℕ → Option (ℕ × List ℕ)
read_spdu (tag ∷ size ∷ high ∷ low ∷ body) =
    if (tag == 0x90) then (if size == 2 then some (high * 256 + low, body) else none) else none
read_spdu _ = none

-- The tag of three bytes, and the body.
unfoldable pub read_apdu : List ℕ → Option (ℕ × List ℕ)
read_apdu (a ∷ b ∷ c ∷ bytes) = do body ← read_body bytes; some (value_of 0 (a ∷ b ∷ c ∷ []), body)
read_apdu _ = none

-- The lengths whose field is written as the layout wants it.
abbrev pub IsWritten : ℕ → Type 0
IsWritten n = (n < 128) ⊎ (255 ≤ n)

read_field-write_length_field :
    (n : ℕ) (rest : List ℕ)
    → IsWritten n
    → n < 2 ^ 32
    → read_field (write_length_field n ++ rest) ≡ some (n, rest)
unfolding read_field value_of write_length_field
read_field-write_length_field n rest h k = ground (arith, h)

pub read_body-written :
    (n : ℕ) (body : List ℕ)
    → n ≡ length body
    → IsWritten n
    → n < 2 ^ 32
    → read_body (write_length_field n ++ body) ≡ some body
unfolding read_body
read_body-written n body e h k =
    let same : (n == length body) ≡ true = ground (arith, e) in
    rw (read_field-write_length_field n body h k, ◌>>=◌, same) refl

pub read_tpdu-tpdu :
    (slot id tag : ℕ) (body : List ℕ)
    → IsWritten (1 + length body)
    → 1 + length body < 2 ^ 32
    → read_tpdu (tpdu slot id tag body)
      ≡ some (record { slot = slot; id = id; tag = tag; connection = id; message = body })
unfolding read_tpdu tpdu
read_tpdu-tpdu slot id tag body h k =
    rw (read_body-written (1 + length body) (id ∷ body) (omega arith) h k, ◌>>=◌) refl

pub read_spdu-spdu :
    (session_nb : ℕ) (body : List ℕ)
    → session_nb < 2 ^ 16
    → read_spdu (spdu session_nb body) ≡ some (session_nb, body)
unfolding read_spdu spdu
read_spdu-spdu session_nb body h =
    let number : session_nb / 256 % 256 * 256 + session_nb % 256 ≡ session_nb = omega (arith, h) in
    rw number refl

pub read_apdu-apdu :
    (tag : ℕ) (body : List ℕ)
    → tag < 2 ^ 24
    → IsWritten (length body)
    → length body < 2 ^ 32
    → read_apdu (apdu tag body) ≡ some (tag, body)
unfolding read_apdu apdu value_of
read_apdu-apdu tag body t h k =
    let number : ((0 * 256 + tag / 2 ^ 16 % 256) * 256 + tag / 2 ^ 8 % 256) * 256 + tag % 256
        ≡ tag =
      omega (arith, t) in
    rw (read_body-written (length body) body refl h k, ◌>>=◌) (ap (λ n. some (n, body)) number)

-- An APDU, the number of the session that it is for, and what the TPDU that carries it says.
pub record MessageView : Type 0 where
  pub slot : ℕ
  pub id : ℕ
  pub tpdu_tag : ℕ
  pub connection : ℕ
  pub session_nb : ℕ
  pub tag : ℕ
  pub body : List ℕ

unfoldable pub read_message : List ℕ → Option MessageView
read_message frame = do
  carrier ← read_tpdu frame
  (session_nb, apdu) ← read_spdu carrier.message
  (tag, body) ← read_apdu apdu
  some (record {
    slot = carrier.slot;
    id = carrier.id;
    tpdu_tag = carrier.tag;
    connection = carrier.connection;
    session_nb = session_nb;
    tag = tag;
    body = body;
  })

-- The TPDU of the last part of a message.
abbrev pub last_tpdu : CamTlConnection → List ℕ → TpduView
last_tpdu connection message = record {
  slot = connection.slot;
  id = connection.id;
  tag = 0xA0;
  connection = connection.id;
  message = message;
}

pub read_message-tpdu :
    (connection : CamTlConnection) (session_nb tag : ℕ) (body : List ℕ)
    → session_nb < 2 ^ 16
    → tag < 2 ^ 24
    → IsWritten (length body)
    → length body < 2 ^ 29
    → IsWritten (5 + length (apdu tag body))
    → read_message (tpdu connection.slot connection.id 0xA0 (spdu session_nb (apdu tag body)))
      ≡ some (record {
        slot = connection.slot;
        id = connection.id;
        tpdu_tag = 0xA0;
        connection = connection.id;
        session_nb = session_nb;
        tag = tag;
        body = body;
      })
unfolding read_message
read_message-tpdu connection session_nb tag body s t h k w =
    let message = spdu session_nb (apdu tag body) in
    let whole : 5 + length (apdu tag body) ≡ 1 + length message =
      omega (arith, length-spdu session_nb (apdu tag body)) in
    let small : 1 + length message < 2 ^ 32 = omega (
      arith,
      k,
      length-apdu tag body,
      calc_length_field_size-le (length body),
      length-spdu session_nb (apdu tag body),
    ) in
    rw
      (
        read_tpdu-tpdu connection.slot connection.id 0xA0 message (subst IsWritten whole w) small,
        ◌>>=◌,
        read_spdu-spdu session_nb (apdu tag body) s,
        read_apdu-apdu tag body t h (omega (arith, k)),
      )
      refl
