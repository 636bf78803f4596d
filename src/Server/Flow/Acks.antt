-- ===== src/Server/Flow/Acks.antt =====
-- host/src/network/server.cpp: what a run of FRAME_ACKs adds to the count of lost frames.
use immersive.Base.{
  ℕ, ◌+◌, ◌-◌, ◌^◌, ◌≤◌, ◌<◌, ◌≡◌, refl, true, List, [], ◌∷◌, arith, secs, u32, length,
  lookup_or-insert,
}
use immersive.Protocol.Messages.{FrameAck}
use immersive.Server.Rate.{RateControl}
use immersive.Server.Flow.{
  start_stream, FlowState, Link, fresh_flow, flow_of, rate_on_ack, flow_on_ack, on_frame_ack,
}

-- The ACKs come in order of their frames, each less than a second after the one before.
abbrev pub Prompt : ℕ → ℕ → List (ℕ × ℕ) → Type 0
Prompt last time [] = last < 2 ^ 32 - 1
Prompt last time ((frame, now) ∷ acks) =
    (last < frame)
    × (time ≤ now)
    × (now < time + secs 1)
    × (last < 2 ^ 32 - 1)
    × Prompt frame now acks

abbrev pub last_frame : ℕ → List (ℕ × ℕ) → ℕ
last_frame last [] = last
last_frame last ((frame, now) ∷ acks) = last_frame frame acks

last-le :
    (last time : ℕ) (acks : List (ℕ × ℕ)) → Prompt last time acks → last ≤ last_frame last acks
last-le last time [] h = omega arith
last-le last time ((frame, now) ∷ acks) h = omega (arith, last-le frame now acks h.4)

Prompt-lt : (last time : ℕ) (acks : List (ℕ × ℕ)) → Prompt last time acks → last < 2 ^ 32 - 1
Prompt-lt last time [] h = h
Prompt-lt last time ((frame, now) ∷ acks) h = h.3

flow_on_ack-next :
    (flow : FlowState) (frame now : ℕ)
    → flow.ack_seen ≡ true
    → flow.last_ack < frame
    → let next = flow_on_ack flow frame now in
      (next.ack_seen ≡ true)
      × (next.last_ack ≡ frame)
      × (next.last_ack_time ≡ now)
      × (next.first_frame ≡ flow.first_frame)
unfolding flow_on_ack
flow_on_ack-next flow frame now seen up = ground arith

module _ {S : Type 0} where
  -- Neither an ACK nor a new stream touches the share of the bitrate.
  pub scale-on_frame_ack :
      (l : Link S) (ack : FrameAck) (now : ℕ) → (on_frame_ack l ack now).rate.scale ≡ l.rate.scale
  unfolding on_frame_ack rate_on_ack
  scale-on_frame_ack l ack now = ground arith

  pub scale-start_stream :
      (l : Link S) (monitor first_frame now : ℕ)
      → (start_stream l monitor first_frame now).rate.scale ≡ l.rate.scale
  unfolding start_stream
  scale-start_stream l monitor first_frame now = ground arith

  -- The ACK of an earlier stream's frame changes no flow state and nothing of the rate control.
  pub on_frame_ack-stale :
      (l : Link S) (ack : FrameAck) (now monitor : ℕ)
      → ack.frame_number < (flow_of l ack.monitor_id).first_frame
      → (flow_of (on_frame_ack l ack now) monitor ≡ flow_of l monitor)
        × ((on_frame_ack l ack now).rate ≡ l.rate)
        × ((on_frame_ack l ack now).tcp_unacked ≡ l.tcp_unacked)
  unfolding on_frame_ack
  on_frame_ack-stale l ack now monitor h = ground (
    arith,
    lookup_or-insert fresh_flow ack.monitor_id monitor (flow_of l ack.monitor_id) l.flow_state,
  )

  -- The link after a run of ACKs for one monitor, each a frame number and the time it is read.
  pub acks_read : Link S → ℕ → List (ℕ × ℕ) → Link S
  acks_read l monitor [] = l
  acks_read l monitor ((frame, now) ∷ acks) =
      acks_read (on_frame_ack l (record { monitor_id = monitor; frame_number = frame }) now) monitor
        acks

  flow_of-on_frame_ack :
      (l : Link S) (monitor frame now : ℕ)
      → (flow_of l monitor).first_frame ≤ frame
      → flow_of (on_frame_ack l (record { monitor_id = monitor; frame_number = frame }) now) monitor
        ≡ flow_on_ack (flow_of l monitor) frame now
  unfolding on_frame_ack
  flow_of-on_frame_ack l monitor frame now h = ground (
    arith,
    lookup_or-insert fresh_flow monitor monitor (flow_on_ack (flow_of l monitor) frame now)
        l.flow_state,
  )

  rate-on_frame_ack :
      (l : Link S) (monitor frame now : ℕ)
      → (flow_of l monitor).first_frame ≤ frame
      → (on_frame_ack l (record { monitor_id = monitor; frame_number = frame }) now).rate
        ≡ rate_on_ack (flow_of l monitor) l.rate frame now
  unfolding on_frame_ack
  rate-on_frame_ack l monitor frame now h = ground arith

  lost-rate_on_ack :
      (flow : FlowState) (rate : RateControl S) (frame now : ℕ)
      → flow.ack_seen ≡ true
      → flow.last_ack < frame
      → frame < 2 ^ 32
      → rate.lost < 2 ^ 32
      → flow.last_ack_time ≤ now
      → now < flow.last_ack_time + secs 1
      → (rate_on_ack flow rate frame now).lost ≡ u32 (rate.lost + (frame - flow.last_ack - 1))
  unfolding rate_on_ack
  lost-rate_on_ack flow rate frame now seen up fits small after soon = ground arith

  acks_read-lost_from :
      (l : Link S) (monitor last time : ℕ) (acks : List (ℕ × ℕ))
      → let flow = flow_of l monitor in
        (flow.ack_seen ≡ true)
          × (flow.last_ack ≡ last)
          × (flow.last_ack_time ≡ time)
          × (flow.first_frame ≤ last)
        → Prompt last time acks
        → l.rate.lost + (last_frame last acks - last) < 2 ^ 32
        → (acks_read l monitor acks).rate.lost + length acks
          ≡ l.rate.lost + (last_frame last acks - last)
  unfolding acks_read
  acks_read-lost_from l monitor last time [] state prompt fits = omega arith
  acks_read-lost_from l monitor last time ((frame, now) ∷ acks) state prompt fits =
      let flow : FlowState = flow_of l monitor in
      let l' = on_frame_ack l (record { monitor_id = monitor; frame_number = frame }) now in
      let moved : flow_of l' monitor ≡ flow_on_ack flow frame now =
        flow_of-on_frame_ack l monitor frame now (omega arith) in
      let next = flow_on_ack-next flow frame now state.0 (omega arith) in
      let below : last_frame frame acks < 2 ^ 32 + last_frame frame acks = omega arith in
      let counted : l'.rate.lost ≡ u32 (l.rate.lost + (frame - flow.last_ack - 1)) =
        rw (rate-on_frame_ack l monitor frame now (omega arith)) (
          lost-rate_on_ack flow l.rate frame now state.0 (omega arith)
            (omega (arith, Prompt-lt frame now acks prompt.4)) (omega arith) (omega arith)
            (omega arith)) in
      let up : frame ≤ last_frame frame acks = last-le frame now acks prompt.4 in
      let ih =
        acks_read-lost_from l' monitor frame now acks
          (rw moved (next.0, next.1, next.2, omega (arith, next.3))) prompt.4 (omega arith) in
      omega (arith, ih)

  -- Over a run of ACKs of one stream that follow a first one, each for a later frame than the one
  -- before it and less than a second after it, with frame numbers and a count below 2^32: the frames
  -- counted as lost are exactly those that were numbered between the first and the last ACK and not
  -- acknowledged.
  pub acks_read-lost :
      (l : Link S) (monitor : ℕ) (acks : List (ℕ × ℕ))
      → (flow_of l monitor).ack_seen ≡ true
      → (flow_of l monitor).first_frame ≤ (flow_of l monitor).last_ack
      → Prompt (flow_of l monitor).last_ack (flow_of l monitor).last_ack_time acks
      → l.rate.lost + (last_frame (flow_of l monitor).last_ack acks - (flow_of l monitor).last_ack)
        < 2 ^ 32
      → (acks_read l monitor acks).rate.lost + length acks
        ≡ l.rate.lost
          + (last_frame (flow_of l monitor).last_ack acks - (flow_of l monitor).last_ack)
  acks_read-lost l monitor acks seen started prompt fits =
      acks_read-lost_from l monitor _ _ acks (seen, refl, refl, started) prompt fits
