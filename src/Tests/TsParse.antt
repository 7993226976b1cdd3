-- ===== src/Tests/TsParse.antt =====
-- The parser element at concrete inputs.
use helia.Common.{
  ℕ, ◌+◌, ◌*◌, ◌^◌, refl, List, [], ◌∷◌, ◌++◌, true, false, none, some, ◌≡◌, ◌==◌, arith,
}
use helia.Ts.Window.{clock_time_none}
use helia.TsParse.{TimedBuffer, TsParser}
use helia.TsParse.Draining.{Downstream, drain_pending_buffers, input_done}
use helia.TsParse.InOrder.{Delivers, passed, input_done-Passed}
use helia.TsParse.Paced.{Takes, Stamped, drain_pending_buffers-Went}
use helia.Tests.Groups.{scale, scale-RoundsDown}

-- Pads that keep the bytes of every buffer.
abbrev keep_bytes : Downstream
keep_bytes = record {
  Out = List (List ℕ);
  Flow = ℕ;
  ok = 0;
  is_ok = λ flow. flow == 0;
  push = λ b out. (0, out ++ b.bytes ∷ []);
  start_stream = λ n t out. out;
  forward_event = λ event out. out;
}

abbrev kept_bytes : Delivers keep_bytes
kept_bytes = record {
  sent = λ out. out;
  starts_ok = refl;
  push_ok = λ b out. refl;
  push_sent = λ b out. refl;
  start_sent = λ n t out. refl;
}

-- Pads that keep every buffer.
abbrev keep_buffers : Downstream
keep_buffers = record {
  Out = List TimedBuffer;
  Flow = ℕ;
  ok = 0;
  is_ok = λ flow. flow == 0;
  push = λ b out. (0, out ++ b ∷ []);
  start_stream = λ n t out. out;
  forward_event = λ event out. out;
}

abbrev kept_buffers : Takes keep_buffers
kept_buffers = record {
  sent = λ out. out;
  starts_ok = refl;
  push_ok = λ b out. refl;
  push_sent = λ b out. refl;
}

abbrev untimed : List ℕ → TimedBuffer
untimed bytes = record { bytes = bytes; pts = clock_time_none; dts = clock_time_none }

-- Three pending buffers, and a PCR a second after the one before.
abbrev waiting : TsParser
waiting = record {
  set_timestamps = true;
  smoothing_latency = 700 * 10 ^ 6;
  base_pcr = 0;
  ts_offset = 5;
  current_pcr = 3 * 10 ^ 9;
  user_pcr_pid = none;
  pcr_pid = some 0x100;
  first = false;
  pending_buffers = untimed (5 ∷ 6 ∷ []) ∷ untimed (3 ∷ 4 ∷ []) ∷ untimed (1 ∷ 2 ∷ []) ∷ [];
  previous_pcr = 2 * 10 ^ 9;
  bytes_since_pcr = 6;
}

input_done-Passed_example :
    ((input_done scale keep_bytes 188 (untimed (7 ∷ [])) waiting []).0 == 0 ≡ true)
    × (passed scale keep_bytes kept_bytes
          ((input_done scale keep_bytes 188 (untimed (7 ∷ [])) waiting []).1)
          ((input_done scale keep_bytes 188 (untimed (7 ∷ [])) waiting []).2)
        ≡ ((1 ∷ 2 ∷ []) ∷ (3 ∷ 4 ∷ []) ∷ (5 ∷ 6 ∷ []) ∷ []) ++ (7 ∷ []) ∷ [])
input_done-Passed_example =
    input_done-Passed scale keep_bytes kept_bytes 188 (untimed (7 ∷ [])) waiting []

drain_pending_buffers-Went_example :
    ((ss : List TimedBuffer) × ((drain_pending_buffers scale keep_buffers false waiting []).2
        ≡ [] ++ ss)
      × Stamped
          (2 * 10 ^ 9 + 5)
          (3 * 10 ^ 9 + 5)
          (untimed (1 ∷ 2 ∷ []) ∷ untimed (3 ∷ 4 ∷ []) ∷ [])
          ss)
    × ((drain_pending_buffers scale keep_buffers false waiting []).1.pending_buffers
        ≡ untimed (5 ∷ 6 ∷ []) ∷ [])
drain_pending_buffers-Went_example =
    drain_pending_buffers-Went scale scale-RoundsDown keep_buffers kept_buffers
      (untimed (5 ∷ 6 ∷ [])) (untimed (3 ∷ 4 ∷ []) ∷ untimed (1 ∷ 2 ∷ []) ∷ []) waiting [] refl
      (omega arith) (omega arith) (omega arith) (omega arith) (omega arith) (omega arith)
      (omega arith)
