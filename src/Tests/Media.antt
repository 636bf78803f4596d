-- ===== src/Tests/Media.antt =====
-- The theorems on frames, the control stream, flow and rate at concrete inputs.
use immersive.Base.{
  ℕ, ◌+◌, ◌-◌, ◌%◌, ◌≡◌, ◌≢◌, ◌↔◌, true, not, ◌&&◌, List, [], ◌∷◌, ◌++◌, some, ltb, leb, ◌==◌,
  arith, take, concat, map, get_or, bit_xor, secs, ms, refl, lookup_or,
}
use immersive.Protocol.Chunks.{compute_chunk_count}
use immersive.Server.Video.{parity_count_of}
use immersive.Server.Video.Parity.{group_xor}
use immersive.Server.Video.Recovery.{
  packets, count, parity, payload_at, frame_packets-reassemble, frame_packets-rebuild_burst,
}
use immersive.Server.Stream.{recv_exact, message, read_message, encode_message}
use immersive.Server.Stream.Framing.{recv_exact-eq, read_message-encode_message}
use immersive.Server.Rate.{RateControl}
use immersive.Server.Rate.Windows.{AtMost, rate_on_sent-AtMost}
use immersive.Server.Flow.{
  Link, FlowState, fresh_flow, admit_frame, dropped, unacked_of, flow_on_sent,
}
use immersive.Server.Flow.Queue.{
  entered, Overdue, oldest_pending, admit_frame-dropped_iff, admit_frame-lapse,
}
use immersive.Server.Flow.Acks.{acks_read, acks_read-lost}
use immersive.Tests.{slow_kernel, fixed_point, half_rate, idle_link}

abbrev short_frame : List ℕ
short_frame = 5 ∷ 6 ∷ 7 ∷ []

frame_packets-rebuild_burst_example :
    bit_xor
      (get_or
        (payload_at (packets 0 9 short_frame) (count 0 9 short_frame + 0 % parity 0 9 short_frame))
        1
        0)
      (group_xor
        (λ i. get_or (payload_at (packets 0 9 short_frame) i) 1 0)
        (λ i.
          (i % parity 0 9 short_frame == 0 % parity 0 9 short_frame)
          && not (leb 0 i && ltb i (0 + parity 0 9 short_frame)))
        0
        (count 0 9 short_frame))
    ≡ get_or (payload_at (packets 0 9 short_frame) 0) 1 0
unfolding compute_chunk_count parity_count_of
frame_packets-rebuild_burst_example =
    frame_packets-rebuild_burst 0 9 short_frame 0 0 1 (omega arith) (omega arith) (omega arith)
      (omega arith) (omega arith)

frame_packets-reassemble_example :
    concat (map (λ p. p.payload) (take (count 0 9 short_frame) (packets 0 9 short_frame)))
    ≡ short_frame
frame_packets-reassemble_example = frame_packets-reassemble 0 9 short_frame (omega arith)

recv_exact-eq_example : recv_exact slow_kernel 3 short_frame ≡ some (short_frame, [])
recv_exact-eq_example = recv_exact-eq slow_kernel 3 short_frame

read_message-encode_message_example :
    read_message slow_kernel (encode_message 48 short_frame ++ 1 ∷ [])
    ≡ message 48 short_frame (1 ∷ [])
read_message-encode_message_example =
    read_message-encode_message slow_kernel 48 short_frame (1 ∷ []) (omega arith) (omega arith)

-- Two of ten frames lost.
abbrev lossy_window : RateControl ℕ
lossy_window = record half_rate { sent = 10; lost = 2 }

rate_on_sent-AtMost_example : AtMost fixed_point 3 half_rate (secs 1 ∷ secs 3 ∷ [])
rate_on_sent-AtMost_example =
    rate_on_sent-AtMost fixed_point half_rate (secs 1) (secs 4) (secs 1 ∷ secs 3 ∷ []) (omega arith)
      (omega arith) (omega arith, (omega arith, omega arith))

-- The stream from frame 10 on; 12 is acknowledged, 13 waits since 5 ms.
abbrev acked_flow : FlowState
acked_flow = record fresh_flow {
  first_frame = 10;
  last_sent = 13;
  last_ack = 12;
  ack_seen = true;
  last_ack_time = ms 5;
  sent_at = λ _. ms 5;
}

abbrev queued_link : Link ℕ
queued_link = record idle_link {
  flow_state = (0, acked_flow) ∷ [];
  tcp_unacked = (0, 13 ∷ []) ∷ [];
}

admit_frame-dropped_iff_example :
    ((admit_frame fixed_point queued_link true 0 14 (ms 500)).1 ≡ dropped) ↔ (
      (true ≡ true)
      × ((entered fixed_point queued_link true 0 14 (ms 500)).ack_seen ≡ true)
      × Overdue (entered fixed_point queued_link true 0 14 (ms 500)) (ms 500) (
          oldest_pending
            (entered fixed_point queued_link true 0 14 (ms 500)).last_ack
            (unacked_of queued_link 0)))
admit_frame-dropped_iff_example = admit_frame-dropped_iff fixed_point queued_link true 0 14 (ms 500)

admit_frame-lapse_example : (admit_frame fixed_point queued_link true 0 141 (ms 5000)).1 ≢ dropped
unfolding lookup_or flow_on_sent
admit_frame-lapse_example =
    admit_frame-lapse fixed_point queued_link true 0 141 (ms 5000) 13 refl refl

acks_read-lost_example :
    (acks_read queued_link 0 ((13, ms 10) ∷ (16, ms 20) ∷ [])).rate.lost + 2 ≡ 0 + (16 - 12)
unfolding lookup_or
acks_read-lost_example =
    acks_read-lost queued_link 0 ((13, ms 10) ∷ (16, ms 20) ∷ []) refl (omega arith)
      ((
        omega arith,
        omega arith,
        omega arith,
        omega arith,
        (omega arith, omega arith, omega arith, omega arith, omega arith),
      ))
      (omega arith)
