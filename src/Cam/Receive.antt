-- ===== src/Cam/Receive.antt =====
-- gst/gst-dvb/camtransport.c: reading TPDUs. The layer above is the parameter `connection_data`,
-- called with the connection's id, the memory from `tl->body` on and the length.
use helia.Common.{
  ℕ, zero, suc, ◌+◌, ◌-◌, ◌%◌, ◌^◌, Bool, true, false, not, ◌&&◌, none, some, List, [], ◌∷◌, ◌++◌,
  map, ltb, leb, ◌==◌, if◌then◌else◌, length, get_elem?, take, drop, lookup, remove,
}
use helia.Cam.LengthField.{read_length_field}
use helia.Cam.State.{
  CamReturn, ok, transport_error, transport_timeout, transport_poll, failed, timeout, read_failure,
  received, opened, in_deletion, CamTlConnection,
}
use helia.Cam.Monad.{
  M, ◌>>=◌, ◌>>◌, return, out_of_fuel, checked, get, modify_tl, os_read, the_connection,
}
use helia.Cam.Transport.{
  tag_sb, tag_rcv, tag_c_t_c_reply, tag_d_t_c_reply, tag_data_last, tag_data_more, host_buffer_size,
  u32, store_connection, write_control_tpdu, connection_poll,
}

-- `read` stores the bytes at the start of the buffer, which has 1024 bytes.
unfoldable pub tl_read : M CamReturn
tl_read = do
  input ← os_read
  elim input [
    | timeout ↦ return transport_timeout
    | read_failure ↦ do
      modify_tl (λ tl. record tl { buffer_size = 2 ^ 32 - 1 })
      return transport_error
    | received bytes ↦ do
      let got = take host_buffer_size bytes
      modify_tl (λ tl. record tl {
        buffer = got ++ drop (length got) tl.buffer;
        buffer_size = length got;
      })
      return ok
  ]

-- What follows the length_field; `body_length` is stored before it is checked.
unfoldable pub accept_tpdu : CamTlConnection → ℕ → ℕ → M (CamReturn × ℕ)
accept_tpdu connection length_field_len body_length = do
  modify_tl (λ tl. record tl { body_length = body_length })
  c ← get
  if ltb c.tl.buffer_size (body_length + 3) then return (transport_error, 0) else (do
    modify_tl (λ tl. record tl {
      body = 4 + length_field_len;
      body_length = u32 (body_length + 2 ^ 32 - 1);
    })
    sb ← checked (get_elem? c.tl.buffer (c.tl.buffer_size - 4))
    if not (sb == tag_sb) then return (transport_error, 0) else (do
      status ← checked (get_elem? c.tl.buffer (c.tl.buffer_size - 1))
      store_connection (record connection { has_data = leb 128 (status % 256) })
      modify_tl (λ tl. record tl { expected_tpdus = u32 (tl.expected_tpdus + 2 ^ 32 - 1) })
      return (ok, connection.id)))

-- The result, and the id of the connection that the TPDU is on.
unfoldable pub read_tpdu_next : M (CamReturn × ℕ)
read_tpdu_next = do
  ret ← tl_read
  if failed ret then return (ret, 0) else (do
    c ← get
    if ltb c.tl.buffer_size 4 then return (transport_error, 0) else (do
      connection_id ← checked (get_elem? c.tl.buffer 1)
      elim (lookup connection_id c.tl.connections) [
        | none ↦ return (transport_error, 0)
        | some connection ↦ do
          (length_field_len, body_length) ← checked (read_length_field (drop 3 c.tl.buffer))
          accept_tpdu connection length_field_len body_length
      ]))

unfoldable pub handle_control_tpdu : ℕ → M CamReturn
handle_control_tpdu id = do
  c ← get
  connection ← the_connection id
  tag ← checked (get_elem? c.tl.buffer 2)
  if not (c.tl.body_length == 0)
      then return transport_error
      else if tag == tag_c_t_c_reply
      then (elim connection.state [
        | in_deletion ↦ return ok
        | _ ↦ do store_connection (record connection { state = opened }); return ok
      ])
      else if tag == tag_d_t_c_reply
      then (do
        modify_tl (λ tl. record tl { connections = remove connection.id tl.connections })
        return ok)
      else return ok

-- How a loop goes on: with the last result, or by `goto out`.
pub data Flow : Type 0 where
  next leave : CamReturn → Flow

module _ (connection_data : ℕ → List ℕ → ℕ → M CamReturn) where
  unfoldable pub handle_data_tpdu : ℕ → M CamReturn
  handle_data_tpdu id = do
    c ← get
    if c.tl.body_length == 0
        then return ok
        else connection_data id (drop c.tl.body c.tl.buffer) c.tl.body_length

  -- The `switch` on the tag of the TPDU that was read.
  unfoldable pub handle_tpdu : ℕ → M CamReturn
  handle_tpdu id = do
    c ← get
    connection ← the_connection id
    tag ← checked (get_elem? c.tl.buffer 2)
    if tag == tag_c_t_c_reply
        then (do store_connection (record connection { empty_data = 0 }); handle_control_tpdu id)
        else if tag == tag_d_t_c_reply
        then (do store_connection (record connection { empty_data = 0 }); handle_control_tpdu id)
        else if tag == tag_data_more
        then (do store_connection (record connection { empty_data = 0 }); handle_data_tpdu id)
        else if tag == tag_data_last
        then (do store_connection (record connection { empty_data = 0 }); handle_data_tpdu id)
        else return ok

  -- `while (tl->expected_tpdus)`.
  unfoldable pub drain : ℕ → CamReturn → M Flow
  drain zero ret = do c ← get; if c.tl.expected_tpdus == 0 then return (next ret) else out_of_fuel
  drain (suc fuel) ret = do
    c ← get
    if c.tl.expected_tpdus == 0 then return (next ret) else (do
      (read_ret, id) ← read_tpdu_next
      if failed read_ret then return (leave read_ret) else (do
        handled ← handle_tpdu id
        if failed handled then return (leave handled) else drain fuel handled))

  -- The walk over the connections: the flow, and `done`.
  unfoldable pub sweep : Bool → List ℕ → CamReturn → Bool → M (Flow × Bool)
  sweep poll [] ret finished = return (next ret, finished)
  sweep poll (id ∷ ids) ret finished = do
    connection ← the_connection id
    if connection.has_data && ltb connection.empty_data 10
        then (do
          written ← write_control_tpdu connection tag_rcv
          if failed written then return (leave written, finished) else (do
            store_connection (record connection { empty_data = connection.empty_data + 1 })
            sweep poll ids written false))
        else if poll
        then (do
          polled ← connection_poll id false
          elim polled [
            | transport_poll ↦ sweep poll ids transport_poll finished
            | other ↦
                if failed other then return (leave other, finished) else sweep poll ids other false
          ])
        else sweep poll ids ret finished

  -- `rounds` bounds the outer loop, and `fuel` each run of the inner one.
  unfoldable pub read_rounds : ℕ → ℕ → Bool → CamReturn → M CamReturn
  read_rounds zero fuel poll ret = out_of_fuel
  read_rounds (suc rounds) fuel poll ret = do
    drained ← drain fuel ret
    elim drained [
      | leave left ↦ return left
      | next last ↦ do
        c ← get
        (flow, finished) ←
            sweep poll (map (λ (entry : ℕ × CamTlConnection). entry.0) c.tl.connections) last true
        elim flow [
          | leave left ↦ return left
          | next swept ↦ if finished then return swept else read_rounds rounds fuel poll swept
        ]
    ]

  unfoldable pub read_all : ℕ → ℕ → Bool → M CamReturn
  read_all rounds fuel poll = read_rounds rounds fuel poll ok
