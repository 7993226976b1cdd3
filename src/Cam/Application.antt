-- ===== src/Cam/Application.antt =====
-- gst/gst-dvb/camapplication.h and camapplication.c: the table of the applications, and the messages
-- that the application layer sends.
use helia.Common.{
  ℕ, ◌+◌, ◌-◌, ◌/◌, ◌%◌, ◌^◌, Bool, true, false, not, Option, none, some, List, [], ◌∷◌, map, ◌==◌,
  if◌then◌else◌, length, lookup, insert, remove, poke,
}
use helia.Common.Maybe
use helia.Cam.LengthField.{calc_length_field_size, write_length_field}
use helia.Cam.State.{CamReturn, CamSlSession, App, Cam}
use helia.Cam.Monad.{M, ◌>>=◌, ◌>>◌, return, checked, get, modify, the_application}
use helia.Cam.Transport.{u32}
use helia.Cam.Session
use helia.Cam.Session.{session_write}

abbrev pub resource_id_is_public : ℕ → Bool
resource_id_is_public resource_id = not (resource_id / 2 ^ 30 == 3)

abbrev pub resource_id_version : ℕ → ℕ
resource_id_version resource_id = resource_id % 2 ^ 6

unfoldable pub resource_id_hash : ℕ → ℕ
resource_id_hash resource_id =
    if not (resource_id_is_public resource_id) then resource_id else resource_id / 2 ^ 6

-- A lookup finds a key that is equal: the table was made with g_direct_equal.
unfoldable pub install : App → M Bool
install application = do
  c ← get
  let id = (the_application application c).resource_id
  elim (lookup id c.applications) [
    | some other ↦ return false
    | none ↦ do
      modify (λ s. record s { applications = insert id application s.applications })
      return true
  ]

unfoldable pub uninstall : App → M Bool
uninstall application = do
  c ← get
  let id = (the_application application c).resource_id
  elim (lookup id c.applications) [
    | none ↦ return false
    | some other ↦ do
      modify (λ s. record s { applications = remove id s.applications })
      return true
  ]

unfoldable pub get_application : ℕ → Cam → Option App
get_application resource_id c = lookup resource_id c.applications

unfoldable pub get_resource_ids : Cam → List ℕ
get_resource_ids c = map (λ (entry : ℕ × App). entry.0) c.applications

-- `*buffer_size` and `*offset`.
unfoldable pub calc_buffer_size : ℕ → ℕ × ℕ
calc_buffer_size body_length =
    let apdu_header_length = 3 + calc_length_field_size body_length in
    let (size, offset) = Session.calc_buffer_size (u32 (apdu_header_length + body_length)) in
    (size, offset + apdu_header_length)

-- The header of the APDU is stored in front of its body, at the end of the buffer.
unfoldable pub fill_apdu : ℕ → List ℕ → ℕ → Option (List ℕ)
fill_apdu tag buffer body_length =
    let apdu_header_length = 3 + calc_length_field_size body_length in
    let apdu = length buffer - body_length - apdu_header_length in
    Maybe.◌>>=◌ (poke apdu (tag / 2 ^ 16 % 256 ∷ tag / 2 ^ 8 % 256 ∷ tag % 256 ∷ []) buffer)
      λ tagged. poke (apdu + 3) (write_length_field body_length) tagged

unfoldable pub application_write : CamSlSession → ℕ → List ℕ → ℕ → M (CamReturn × List ℕ)
application_write session tag buffer body_length = do
  filled ← checked (fill_apdu tag buffer body_length)
  session_write session filled (3 + calc_length_field_size body_length + body_length)
