-- ===== src/Tests/Demux.antt =====
-- Streams that collect packets, at concrete inputs.
use helia.Common.{
  ◌-◌, refl, [], ◌∷◌, ◌++◌, true, false, none, arith, ◌≡◌, ◌==◌, take, drop, lookup, Bool-cases,
  inl, inr, subst,
}
use helia.Parsing.Gives.{Gives}
use helia.Pes.Header.{no_timestamp}
use helia.Ts.Window.{clock_time_none}
use helia.Ts.Timing.Sound.{IsTiming}
use helia.Demux.{empty, TsDemuxStream}
use helia.Demux.Clock.{packetizer_clock}
use helia.Demux.Pending.{Streams}
use helia.Demux.Queue.{StreamPacket, continuity_unset, queue_data}
use helia.Demux.Sound.{AllStreams, IsStream}
use helia.Demux.Collecting.{IsPacket}
use helia.Demux.Queued.{queue_data-AllStreams}
use helia.Demux.Unit.{Collects, payloads, queue_packets, queue_packets-payloads}
use helia.Tests.Pes.{packet, packet_header, packet-IsByte, packet-length, packet_parsed}
use helia.Tests.Groups.{scale, one_pid, one_pid-IsTiming}

abbrev idle : TsDemuxStream
idle = record {
  sparse = false;
  pending_ts = true;
  state = empty;
  bytes = none;
  expected_size = 0;
  current_size = 0;
  allocated_size = 0;
  pts = clock_time_none;
  dts = clock_time_none;
  raw_pts = no_timestamp;
  raw_dts = no_timestamp;
  discont = true;
  first_pts = clock_time_none;
  need_newsegment = true;
  continuity_counter = continuity_unset;
  pending = [];
  target_pes_substream = 0;
}

abbrev video : Streams
video = (0x100, idle) ∷ []

video-AllStreams : AllStreams video
unfolding lookup
video-AllStreams pid s e = elim (Bool-cases (0x100 == pid)) [
  | inl here ↦ let same : idle ≡ s = ground (arith, e, here) in subst IsStream same refl
  | inr away ↦ absurd (ground (arith, e, away))
]

abbrev first_packet : StreamPacket
first_packet = record {
  payload_unit_start_indicator = true;
  continuity_counter = 15;
  payload = packet;
  size = 15;
}

first_packet-IsPacket : IsPacket first_packet
first_packet-IsPacket = record { bytes = packet-IsByte; room = packet-length; small = omega arith }

abbrev second_packet : StreamPacket
second_packet = record {
  payload_unit_start_indicator = false;
  continuity_counter = 0;
  payload = 1 ∷ 2 ∷ 3 ∷ [];
  size = 2;
}

second_packet-IsPacket : IsPacket second_packet
second_packet-IsPacket = record { bytes = ground arith; room = omega arith; small = omega arith }

queue_data-AllStreams_example :
    Gives
      (λ r. AllStreams (r.0) × IsTiming (r.1))
      (queue_data (packetizer_clock scale 0x100) 0x100 first_packet idle video one_pid)
queue_data-AllStreams_example =
    queue_data-AllStreams (packetizer_clock scale 0x100) 0x100 first_packet idle video one_pid
      first_packet-IsPacket refl video-AllStreams (omega arith) one_pid-IsTiming

queue_packets-payloads_example :
    Gives
      (λ r. Collects 0x100 (take (15 - 14) (drop 14 packet) ++ payloads (second_packet ∷ [])) (r.0))
      (queue_packets
        (packetizer_clock scale 0x100)
        0x100
        (first_packet ∷ second_packet ∷ [])
        video
        one_pid)
unfolding lookup
queue_packets-payloads_example =
    queue_packets-payloads (packetizer_clock scale 0x100) 0x100 packet_header first_packet
      (second_packet ∷ []) idle video one_pid first_packet-IsPacket (second_packet-IsPacket, tt)
      refl (omega arith) (refl, tt) (omega arith) packet_parsed refl refl refl refl video-AllStreams
      one_pid-IsTiming
