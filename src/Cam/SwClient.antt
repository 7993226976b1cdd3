-- ===== src/Cam/SwClient.antt =====
-- gst/gst-dvb/camswclient.c: the client of a software CAM on a socket. The calls of the operating
-- system are kept in order; it may answer anything by what was called before. `none` is an access
-- outside an array or memory that is freed twice.
use helia.Common.{
  ℕ, ◌+◌, ◌-◌, ◌^◌, ◌<◌, ◌≡◌, refl, sym, ap, subst, arith, ◌∙◌, Bool, true, false, Option, none,
  some, List, [], ◌∷◌, ◌++◌, leb, ◌==◌, if◌then◌else◌, length, take, poke, zeros, zeros-add,
  poke-zeros, poke_at, length-zeros, append_assoc,
}
use helia.Common.Maybe.{◌>>=◌}
use helia.Cam.LengthField.{calc_length_field_size, write_length_field}
use helia.Cam.LengthField.RoundTrip.{length-write_length_field}
use helia.Cam.CaPmt.{Pmt, build_ca_pmt}
use helia.Cam.CaPmt.Decode.{PmtFits, ca_pmt_size, decode_ca_pmt, pmt_view, build_ca_pmt_lem}
use helia.Cam.Wire.{IsWritten, value_of, read_apdu, read_body-written}

pub data Call : Type 0 where
  called_socket : Call
  called_connect : ℕ → List ℕ → Call
  called_write : ℕ → List ℕ → Call
  called_close : ℕ → Call

-- What the system answers: a descriptor or an error, and whether a connection was made.
pub record Sockets : Type 0 where
  pub socket : List Call → Option ℕ
  pub connect : List Call → Bool

-- A pointer to memory of the heap.
pub data Pointer : Type 0 where
  null dangling : Pointer
  pointing : List ℕ → Pointer

pub data ClientState : Type 0 where
  client_closed client_opened : ClientState

-- CamSwClient, with the calls so far.
pub record Client : Type 0 where
  pub state : ClientState
  pub sock_path : Pointer
  pub sock : ℕ
  pub calls : List Call

-- The size of `sun_path`.
abbrev pub unix_path_max : ℕ
unix_path_max = 108

unfoldable pub client_new : List Call → Client
client_new calls = record { state = client_closed; sock_path = null; sock = 0; calls = calls }

abbrev pub call : Call → Client → Client
call c client = record client { calls = client.calls ++ (c ∷ []) }

-- g_free; a NULL is let be.
abbrev pub free_path : Client → Pointer → Option Client
free_path client null = some client
free_path client dangling = none
free_path client (pointing path) = some (record client { sock_path = dangling })

unfoldable pub client_reset : Client → Option Client
client_reset client =
    let shut : Client =
      if client.sock == 0 then client else call (called_close client.sock) client in
    free_path shut client.sock_path

-- What is left of the client is its calls.
unfoldable pub client_free : Client → Option (List Call)
client_free client = do reset ← client_reset client; some reset.calls

-- It does nothing unless the client is open.
abbrev pub close_from : ClientState → Client → Option Client
close_from client_closed client = some client
close_from client_opened client = do
  reset ← client_reset client
  some (record reset { state = client_closed })

unfoldable pub client_close : Client → Option Client
client_close client = close_from client.state client

module _ (system : Sockets) where
  -- connect, on a socket that was made.
  unfoldable pub connect_client : List ℕ → ℕ → Client → Client × Bool
  connect_client sock_path sock client =
      let connecting = call (called_connect sock sock_path) (record client { sock = sock }) in
      if system.connect connecting.calls
      then (record connecting { sock_path = pointing sock_path; state = client_opened }, true)
      else (connecting, false)

  -- A socket that is refused is stored as -1, here 2^32 - 1.
  abbrev pub open_socket : List ℕ → Client → Option ℕ → Client × Bool
  open_socket sock_path asking none = (record asking { sock = 2 ^ 32 - 1 }, false)
  open_socket sock_path asking (some sock) = connect_client sock_path sock asking

  -- It does nothing unless the client is closed.
  abbrev pub open_from : ClientState → List ℕ → Client → Client × Bool
  open_from client_opened sock_path client = (client, false)
  open_from client_closed sock_path client =
      if leb (unix_path_max - 1) (length sock_path)
      then (client, false)
      else (let asking = call called_socket client in
          open_socket sock_path asking (system.socket asking.calls))

  -- For a path that is not NULL.
  unfoldable pub client_open : List ℕ → Client → Client × Bool
  client_open sock_path client = open_from client.state sock_path client

-- The message of a ca_pmt.
unfoldable pub ca_pmt_message : List ℕ → ℕ → Option (List ℕ)
ca_pmt_message ca_pmt ca_pmt_size = do
  let header_len = 3 + calc_length_field_size ca_pmt_size
  body ← poke header_len (take ca_pmt_size ca_pmt) (zeros (header_len + ca_pmt_size))
  tagged ← poke 0 (0x9F ∷ 0x80 ∷ 0x32 ∷ []) body
  poke 3 (write_length_field ca_pmt_size) tagged

unfoldable pub client_send_ca_pmt : Client → Pmt → ℕ → ℕ → Option Client
client_send_ca_pmt client pmt list_management cmd_id = do
  (ca_pmt, ca_pmt_size) ← build_ca_pmt pmt list_management cmd_id
  buffer ← ca_pmt_message ca_pmt ca_pmt_size
  some (call (called_write client.sock buffer) client)

unfoldable pub client_set_pmt : Client → Pmt → Option Client
client_set_pmt client pmt = client_send_ca_pmt client pmt 3 1

unfoldable pub client_update_pmt : Client → Pmt → Option Client
client_update_pmt client pmt = client_send_ca_pmt client pmt 5 1

take-whole : (xs : List ℕ) → take (length xs) xs ≡ xs
take-whole [] = refl
take-whole (x ∷ xs) = ap (λ (zs : List ℕ). x ∷ zs) (take-whole xs)

-- The layout of a message.
ca_pmt_message_lem :
    (ca_pmt : List ℕ)
    → ca_pmt_message ca_pmt (length ca_pmt)
      ≡ some ((0x9F ∷ 0x80 ∷ 0x32 ∷ []) ++ (write_length_field (length ca_pmt) ++ ca_pmt))
unfolding ca_pmt_message
ca_pmt_message_lem ca_pmt =
    let size = calc_length_field_size (length ca_pmt) in
    let field = write_length_field (length ca_pmt) in
    let split : zeros (3 + size) ++ ca_pmt ≡ zeros 3 ++ (zeros size ++ ca_pmt) =
      ap (λ (z : List ℕ). z ++ ca_pmt) (zeros-add 3 size)
      ∙ append_assoc (zeros 3) (zeros size) ca_pmt in
    let body : poke (3 + size) ca_pmt (zeros (3 + size + length ca_pmt))
        ≡ some (zeros 3 ++ (zeros size ++ ca_pmt)) =
      poke-zeros (3 + size) ca_pmt ∙ ap some split in
    let tagged : poke 0 (0x9F ∷ 0x80 ∷ 0x32 ∷ []) (zeros 3 ++ (zeros size ++ ca_pmt))
        ≡ some ((0x9F ∷ 0x80 ∷ 0x32 ∷ []) ++ (zeros size ++ ca_pmt)) =
      poke_at 0 [] (0x9F ∷ 0x80 ∷ 0x32 ∷ []) (zeros 3) (zeros size ++ ca_pmt) refl refl in
    let done : poke 3 field ((0x9F ∷ 0x80 ∷ 0x32 ∷ []) ++ (zeros size ++ ca_pmt))
        ≡ some ((0x9F ∷ 0x80 ∷ 0x32 ∷ []) ++ (field ++ ca_pmt)) =
      poke_at 3 (0x9F ∷ 0x80 ∷ 0x32 ∷ []) field (zeros size) ca_pmt refl
        (length-write_length_field (length ca_pmt) ∙ sym (length-zeros size)) in
    rw (take-whole ca_pmt, body, tagged) done

-- For a PMT that `build_ca_pmt` takes and whose ca_pmt has no length from 128 to 254, for which the
-- length_field is wrong, one message goes out on the client's socket: it is read as the tag of a ca_pmt and
-- a body with nothing behind it, and the body as the ca_pmt of that PMT, with the CA descriptors each
-- without its last two bytes.
pub client_send_ca_pmt-sends :
    (client : Client) (pmt : Pmt) (list_management cmd_id : ℕ)
    → PmtFits pmt
    → IsWritten (ca_pmt_size pmt)
    → ca_pmt_size pmt < 2 ^ 32
    → (message body : List ℕ) × (client_send_ca_pmt client pmt list_management cmd_id
        ≡ some (record client { calls = client.calls ++ (called_write client.sock message ∷ []) }))
      × (read_apdu message ≡ some (0x9F8032, body))
      × (decode_ca_pmt body ≡ some (pmt_view pmt list_management cmd_id))
unfolding client_send_ca_pmt read_apdu value_of
client_send_ca_pmt-sends client pmt list_management cmd_id f h k =
    let (body, built, size, view) = build_ca_pmt_lem pmt list_management cmd_id f in
    let read =
      read_body-written (length body) body refl (subst IsWritten (sym size) h)
        (omega (arith, size, k)) in
    (
      (0x9F ∷ 0x80 ∷ 0x32 ∷ []) ++ (write_length_field (length body) ++ body),
      body,
      rw (built, ca_pmt_message_lem body) refl,
      rw (read, ◌>>=◌) refl,
      view,
    )

-- Closing a client leaves its path dangling, so freeing it frees the path again.
pub client_close-client_free :
    (client : Client) (path : List ℕ)
    → client.state ≡ client_opened
    → client.sock_path ≡ pointing path
    → (after : Client) × (client_close client ≡ some after) × (client_free after ≡ none)
unfolding client_close client_free client_reset
client_close-client_free client path is_open held =
    let shut : Client =
      if client.sock == 0 then client else call (called_close client.sock) client in
    let reset : client_reset client ≡ some (record shut { sock_path = dangling }) =
      ap (free_path shut) held in
    (
      record shut { sock_path = dangling; state = client_closed },
      ap (λ (state : ClientState). close_from state client) is_open
          ∙ ap (λ (o : Option Client). o >>= λ r. some (record r { state = client_closed })) reset,
      refl,
    )
