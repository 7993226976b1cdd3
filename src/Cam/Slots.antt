-- ===== src/Cam/Slots.antt =====
-- gst/gst-dvb/camtransport.c, cam_tl_create_connection: the connection that is made for a slot.
use helia.Common.{ℕ, ◌+◌, ◌≡◌, refl, inl, inr, some, lookup, lookup-insert, arith}
use helia.Cam.State.{ok, closed, Cam, CamTlConnection}
use helia.Cam.Monad.{done}
use helia.Cam.SessionTable.{Run-cases}
use helia.Cam.Transport.{connection_new, create_loop, create_connection}

-- A connection that was made for a slot has the next id, stands in the table under it, and is
-- closed; but it is on slot 0, whatever slot it was made for.
pub create_connection_slot :
    (slot id : ℕ) (c c' : Cam)
    → create_connection slot c ≡ done ((ok, some id), c')
    → (connection : CamTlConnection) × (lookup id c'.tl.connections ≡ some connection)
      × (id ≡ c.tl.connection_ids + 1)
      × (connection.id ≡ id)
      × (connection.state ≡ closed)
      × (connection.slot ≡ 0)
unfolding create_connection connection_new
create_connection_slot slot id c c' h =
    let next = c.tl.connection_ids + 1 in
    let counted : Cam = record c { tl = record (c.tl) { connection_ids = next } } in
    elim (Run-cases (create_loop 10 (connection_new next) counted)) [
      | inl (ret, d, e) ↦ (
        connection_new next,
        ground (arith, e, lookup-insert next id (connection_new next) d.tl.connections),
        ground (arith, e),
        ground (arith, e),
        refl,
        refl,
      )
      | inr stops ↦ ground (arith, stops)
    ]
