-- ===== src/Cam/PmtReply.antt =====
-- gst/gst-dvb/camconditionalaccess.c, handle_conditional_access_pmt_reply: for which messages the
-- loop ends within the memory.
use helia.Common.{
  ℕ, ◌+◌, ◌-◌, ◌%◌, ◌^◌, ◌<◌, ◌≡◌, ◌&&◌, List, [], ◌∷◌, leb, ◌==◌, if◌then◌else◌, length, drop,
  length-drop, arith,
}
use helia.Cam.State.{ok, Cam}
use helia.Cam.Monad.{done, fault}
use helia.Cam.Apps.{pmt_reply_loop, pmt_reply}

pmt_reply_loop_lem :
    (buffer : List ℕ) (size : ℕ) (c : Cam)
    → size < 2 ^ 32
    → length buffer < 2 ^ 31
    → pmt_reply_loop buffer size c
      ≡ (if size % 3 == 0 && leb size (length buffer) then done (ok, c) else fault)
unfolding pmt_reply_loop
pmt_reply_loop_lem [] size c h l = ground arith
pmt_reply_loop_lem (x ∷ []) size c h l = ground arith
pmt_reply_loop_lem (x ∷ y ∷ []) size c h l = ground arith
pmt_reply_loop_lem (x ∷ y ∷ z ∷ buffer) size c h l =
    ground (
      arith,
      pmt_reply_loop_lem buffer ((size + 2 ^ 32 - 3) % 2 ^ 32) c (omega arith) (omega arith),
    )

-- For a length below 2^32 and a memory of less than 2^31 bytes, a reply is read without a fault
-- exactly if its length is 4 and a multiple of 3 more and the memory holds it; else the loop leaves
-- the memory.
pub pmt_reply_outcome :
    (buffer : List ℕ) (size : ℕ) (c : Cam)
    → size < 2 ^ 32
    → length buffer < 2 ^ 31
    → pmt_reply buffer size c ≡ (
        if (leb 4 size && (size - 4) % 3 == 0) && leb size (length buffer)
        then done (ok, c)
        else fault)
unfolding pmt_reply
pmt_reply_outcome buffer size c h l = ground (
  arith,
  pmt_reply_loop_lem (drop 4 buffer) ((size + 2 ^ 32 - 4) % 2 ^ 32) c (omega arith)
      (omega (arith, length-drop 4 buffer)),
  length-drop 4 buffer,
)
