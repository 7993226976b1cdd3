-- ===== src/Cam/Transport.antt =====
-- gst/gst-dvb/camtransport.c. The callbacks connection_created and connection_deleted are assigned
-- nowhere in the repository and stay NULL. A buffer and its size are one list. g_malloc'ed bytes are
-- zeros here: every one of them is overwritten before it is sent.
use helia.Common.{
  ℕ, zero, suc, ◌+◌, ◌-◌, ◌%◌, ◌^◌, Bool, false, not, ◌&&◌, Option, none, some, List, [], ◌∷◌, ltb,
  ◌==◌, if◌then◌else◌, replicate, insert, poke,
}
use helia.Common.Maybe
use helia.Cam.LengthField.{calc_length_field_size, write_length_field}
use helia.Cam.State.{
  CamReturn, ok, transport_error, transport_too_many_connections, transport_poll, failed, closed,
  in_deletion, CamTlConnection,
}
use helia.Cam.Monad.{
  M, ◌>>=◌, ◌>>◌, return, checked, get, modify_tl, unless_failed, os_write, os_clock, os_sleep,
  the_connection,
}

abbrev pub tag_sb : ℕ
tag_sb = 0x80

abbrev pub tag_rcv : ℕ
tag_rcv = 0x81

abbrev pub tag_create_t_c : ℕ
tag_create_t_c = 0x82

abbrev pub tag_c_t_c_reply : ℕ
tag_c_t_c_reply = 0x83

abbrev pub tag_delete_t_c : ℕ
tag_delete_t_c = 0x84

abbrev pub tag_d_t_c_reply : ℕ
tag_d_t_c_reply = 0x85

abbrev pub tag_data_last : ℕ
tag_data_last = 0xA0

abbrev pub tag_data_more : ℕ
tag_data_more = 0xA1

abbrev pub host_buffer_size : ℕ
host_buffer_size = 1024

-- POLL_INTERVAL, in microseconds.
abbrev pub poll_interval : ℕ
poll_interval = 300000

-- guint arithmetic.
abbrev pub u32 : ℕ → ℕ
u32 n = n % 2 ^ 32

-- The slot is that of cleared memory: no code sets it.
unfoldable pub connection_new : ℕ → CamTlConnection
connection_new id = record {
  slot = 0;
  id = id;
  state = closed;
  has_data = false;
  empty_data = 0;
  last_poll = none;
}

-- `*buffer_size` and `*offset`.
unfoldable pub calc_buffer_size : ℕ → ℕ × ℕ
calc_buffer_size body_length =
    let offset = 3 + calc_length_field_size body_length + 1 in (u32 (offset + body_length), offset)

-- The stores of `cam_tl_connection_write_tpdu` into the buffer.
unfoldable pub fill_tpdu : ℕ → ℕ → ℕ → List ℕ → ℕ → Option (List ℕ)
fill_tpdu slot id tag buffer body_length = Maybe.◌>>=◌ (poke 0 (slot ∷ id ∷ tag ∷ []) buffer) λ b.
    Maybe.◌>>=◌ (poke 3 (write_length_field body_length) b)
      λ b'. poke (3 + calc_length_field_size body_length) (id ∷ []) b'

-- The result, and the buffer with its header written.
unfoldable pub write_tpdu : CamTlConnection → ℕ → List ℕ → ℕ → M (CamReturn × List ℕ)
write_tpdu connection tag buffer body_length = do
  filled ← checked (fill_tpdu connection.slot connection.id tag buffer body_length)
  sent ← os_write filled
  if sent
      then (do
        modify_tl (λ tl. record tl { expected_tpdus = u32 (tl.expected_tpdus + 1) })
        return (ok, filled))
      else return (transport_error, filled)

unfoldable pub write_control_tpdu : CamTlConnection → ℕ → M CamReturn
write_control_tpdu connection tag = do
  (ret, buffer) ← write_tpdu connection tag (replicate 5 0) 1
  return ret

unfoldable pub connection_write : ℕ → List ℕ → ℕ → M (CamReturn × List ℕ)
connection_write id buffer body_length = do
  connection ← the_connection id
  write_tpdu connection tag_data_last buffer (u32 (1 + body_length))

-- The loop of `cam_tl_create_connection`, with the retries that are left.
unfoldable pub create_loop : ℕ → CamTlConnection → M CamReturn
create_loop zero conn = write_control_tpdu conn tag_create_t_c
create_loop (suc count) conn = do
  ret ← write_control_tpdu conn tag_create_t_c
  if not (failed ret) then return ret else (do os_sleep; create_loop count conn)

-- The result, and the id of the connection if it was made. The slot is not used, as in the source.
unfoldable pub create_connection : ℕ → M (CamReturn × Option ℕ)
create_connection slot = do
  c ← get
  if c.tl.connection_ids == 255 then return (transport_too_many_connections, none) else (do
    let id = c.tl.connection_ids + 1
    let conn = connection_new id
    modify_tl (λ tl. record tl { connection_ids = id })
    ret ← create_loop 10 conn
    if failed ret then return (ret, none) else (do
      modify_tl (λ tl. record tl { connections = insert id conn tl.connections })
      return (ok, some id)))

-- A store into a connection of the table.
abbrev pub store_connection : CamTlConnection → M (Unit {0})
store_connection conn =
    modify_tl (λ tl. record tl { connections = insert conn.id conn tl.connections })

unfoldable pub connection_delete : ℕ → M CamReturn
connection_delete id = do
  connection ← the_connection id
  ret ← write_control_tpdu connection tag_delete_t_c
  unless_failed ret (do store_connection (record connection { state = in_deletion }); return ok)

-- Is it too early for another poll? A new timer starts at once and does not hold the poll back.
unfoldable pub poll_too_early : CamTlConnection → Bool → M Bool
poll_too_early connection force = elim connection.last_poll [
  | none ↦ do
    now ← os_clock
    store_connection (record connection { last_poll = some now })
    return false
  | some start ↦ do now ← os_clock; return (not force && ltb (now - start) poll_interval)
]

unfoldable pub connection_poll : ℕ → Bool → M CamReturn
connection_poll id force = do
  connection ← the_connection id
  early ← poll_too_early connection force
  if early then return transport_poll else (do
    ret ← write_control_tpdu connection tag_data_last
    unless_failed ret (do
      now ← os_clock
      store_connection (record connection { last_poll = some now })
      return ok))
