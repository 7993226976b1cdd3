-- ===== src/Cam/Apps.antt =====
-- gst/gst-dvb/camresourcemanager.c, camapplicationinfo.c and camconditionalaccess.c: the three
-- applications of the host, in a build with GStreamer's debug log. What is only logged is left out,
-- but not the reads of the message: `checked` is a read past the end of the memory.
use helia.Common.{
  ℕ, ◌+◌, ◌-◌, ◌*◌, ◌/◌, ◌%◌, ◌^◌, true, Option, List, [], ◌∷◌, ◌++◌, leb, ◌==◌, if◌then◌else◌,
  length, get_elem?, drop, replicate, be32, poke,
}
use helia.Cam.State.{
  CamReturn, ok, error, application_error, CamSlSession, App, resource_manager, application_info,
  conditional_access,
}
use helia.Cam.Monad.{M, ◌>>=◌, ◌>>◌, return, crash, checked, get, modify, the_session}
use helia.Cam.CaPmt.{Pmt, build_ca_pmt}
use helia.Cam.Application.{calc_buffer_size, application_write, get_resource_ids}

abbrev pub tag_profile_enquiry : ℕ
tag_profile_enquiry = 0x9F8010

abbrev pub tag_profile_reply : ℕ
tag_profile_reply = 0x9F8011

abbrev pub tag_profile_change : ℕ
tag_profile_change = 0x9F8012

abbrev pub tag_application_info_enquiry : ℕ
tag_application_info_enquiry = 0x9F8020

abbrev pub tag_application_info_reply : ℕ
tag_application_info_reply = 0x9F8021

abbrev pub tag_conditional_access_info_enquiry : ℕ
tag_conditional_access_info_enquiry = 0x9F8030

abbrev pub tag_conditional_access_info_reply : ℕ
tag_conditional_access_info_reply = 0x9F8031

abbrev pub tag_conditional_access_pmt : ℕ
tag_conditional_access_pmt = 0x9F8032

abbrev pub tag_conditional_access_pmt_reply : ℕ
tag_conditional_access_pmt_reply = 0x9F8033

-- A buffer with the body of the APDU in its place.
unfoldable pub apdu_buffer : List ℕ → Option (List ℕ)
apdu_buffer body =
    let (size, offset) = calc_buffer_size (length body) in poke offset body (replicate size 0)

unfoldable pub write_apdu : CamSlSession → ℕ → List ℕ → M CamReturn
write_apdu session tag body = do
  buffer ← checked (apdu_buffer body)
  (ret, written) ← application_write session tag buffer (length body)
  return ret

unfoldable pub send_simple : CamSlSession → ℕ → M CamReturn
send_simple session tag = write_apdu session tag []

-- The resource ids in the order of the table.
unfoldable pub resource_id_bytes : List ℕ → List ℕ
resource_id_bytes [] = []
resource_id_bytes (id ∷ ids) = be32 id ++ resource_id_bytes ids

unfoldable pub send_profile_reply : CamSlSession → M CamReturn
send_profile_reply session = do
  c ← get
  write_apdu session tag_profile_reply (resource_id_bytes (get_resource_ids c))

-- The result of what is sent is dropped.
unfoldable pub manager_data : CamSlSession → ℕ → M CamReturn
manager_data session tag =
    if tag == tag_profile_enquiry
    then (do sent ← send_profile_reply session; return ok)
    else if tag == tag_profile_reply
    then (do sent ← send_simple session tag_profile_change; return ok)
    else if tag == tag_profile_change
    then (do sent ← send_simple session tag_profile_enquiry; return ok)
    else return application_error

-- The type, the length of the menu's name, and the name, which is copied.
unfoldable pub info_reply : List ℕ → M CamReturn
info_reply buffer = do
  kind ← checked (get_elem? buffer 0)
  menu_length ← checked (get_elem? buffer 5)
  if leb (6 + menu_length) (length buffer) then return ok else crash

unfoldable pub info_data : ℕ → List ℕ → M CamReturn
info_data tag buffer = if tag == tag_application_info_reply then info_reply buffer else return error

-- `length / 2` words are read.
unfoldable pub access_info_reply : List ℕ → ℕ → M CamReturn
access_info_reply buffer size =
    if leb (size / 2 * 2) (length buffer)
    then (do modify (λ c. record c { ready = true }); return ok)
    else crash

-- `while (length > 0)`, three bytes a round; `length` is a guint and goes on below zero.
unfoldable pub pmt_reply_loop : List ℕ → ℕ → M CamReturn
pmt_reply_loop [] size = if size == 0 then return ok else crash
pmt_reply_loop (a ∷ []) size = if size == 0 then return ok else crash
pmt_reply_loop (a ∷ b ∷ []) size = if size == 0 then return ok else crash
pmt_reply_loop (a ∷ b ∷ c ∷ buffer) size =
    let rest = pmt_reply_loop buffer ((size + 2 ^ 32 - 3) % 2 ^ 32) in
    if size == 0 then return ok else rest

unfoldable pub pmt_reply : List ℕ → ℕ → M CamReturn
pmt_reply buffer size =
    if leb 4 (length buffer)
    then pmt_reply_loop (drop 4 buffer) ((size + 2 ^ 32 - 4) % 2 ^ 32)
    else crash

unfoldable pub access_data : ℕ → List ℕ → ℕ → M CamReturn
access_data tag buffer size =
    if tag == tag_conditional_access_info_reply
    then access_info_reply buffer size
    else if tag == tag_conditional_access_pmt_reply
    then pmt_reply buffer size
    else return error

-- The vtables: what a session request is answered, `open`, `close` and `data`.
unfoldable pub app_session_request : App → CamSlSession → M (CamReturn × ℕ)
app_session_request app session = return (ok, 0)

unfoldable pub app_open : App → CamSlSession → M CamReturn
app_open resource_manager session = send_simple session tag_profile_enquiry
app_open application_info session = send_simple session tag_application_info_enquiry
app_open conditional_access session = send_simple session tag_conditional_access_info_enquiry

unfoldable pub app_close : App → CamSlSession → M CamReturn
app_close app session = return ok

unfoldable pub app_data : App → CamSlSession → ℕ → List ℕ → ℕ → M CamReturn
app_data resource_manager session tag buffer size = manager_data session tag
app_data application_info session tag buffer size = info_data tag buffer
app_data conditional_access session tag buffer size = access_data tag buffer size

-- The loop of `send_ca_pmt` over the sessions of the application; they share the buffer.
unfoldable pub send_to_sessions : List ℕ → List ℕ → ℕ → M CamReturn
send_to_sessions [] buffer size = return ok
send_to_sessions (nb ∷ nbs) buffer size = do
  session ← the_session nb
  (ret, written) ← application_write session tag_conditional_access_pmt buffer size
  send_to_sessions nbs written size

unfoldable pub conditional_access_set_pmt : Pmt → ℕ → M CamReturn
conditional_access_set_pmt pmt flag = do
  (ca_pmt, size) ← checked (build_ca_pmt pmt flag 0x01)
  buffer ← checked (apdu_buffer ca_pmt)
  c ← get
  send_to_sessions c.cas.sessions buffer size
