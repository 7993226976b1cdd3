-- ===== src/Tests/Reading.antt =====
-- Messages of the module at concrete inputs.
use helia.Common.{
  ℕ, ◌-◌, ◌%◌, ◌≡◌, refl, ◌&&◌, List, [], ◌∷◌, length, leb, ◌==◌, if◌then◌else◌, arith, true,
}
use helia.Cam.State.{CamReturn, ok, Os, Cam, received}
use helia.Cam.Monad.{done, fault}
use helia.Cam.Receive.{read_tpdu_next}
use helia.Cam.Reading.{Ends, read_tpdu_next_safe}
use helia.Cam.Apps.{pmt_reply}
use helia.Cam.PmtReply.{pmt_reply_outcome}
use helia.Tests.Data.{quiet_os, idle_cam}

-- The answer of connection 1 to a poll, without data and without more to come.
abbrev poll_answer : List ℕ
poll_answer = 0 ∷ 1 ∷ 0xA0 ∷ 1 ∷ 1 ∷ 0x80 ∷ 2 ∷ 1 ∷ 0 ∷ []

abbrev talking_os : Os
talking_os = record {
  write = λ log bytes. true;
  read = λ log. received poll_answer;
  clock = λ log. 0;
}

read_tpdu_next_safe_example :
    Ends
      (λ (result : CamReturn × ℕ) (d : Cam). length d.tl.buffer ≡ 1024)
      (read_tpdu_next (idle_cam talking_os))
read_tpdu_next_safe_example = read_tpdu_next_safe (idle_cam talking_os) refl

abbrev reply : List ℕ
reply = 0 ∷ 1 ∷ 3 ∷ 1 ∷ 0 ∷ 16 ∷ 1 ∷ []

pmt_reply_outcome_example : pmt_reply reply 6 (idle_cam quiet_os) ≡ (
    if (leb 4 6 && (6 - 4) % 3 == 0) && leb 6 (length reply)
    then done (ok, idle_cam quiet_os)
    else fault)
pmt_reply_outcome_example =
    pmt_reply_outcome reply 6 (idle_cam quiet_os) (omega arith) (omega arith)
