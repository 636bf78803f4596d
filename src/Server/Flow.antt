-- ===== src/Server/Flow.antt =====
-- host/src/network/server.cpp: flow control of one client's link, ClientState::FlowState with the
-- bookkeeping of send_video_packet, its TCP queue, send_stream_start and the FRAME_ACK handler.
pub mod Acks
pub mod Queue
use immersive.Base.{
  ℕ, ◌+◌, ◌-◌, ◌%◌, max, Bool, true, false, not, ◌&&◌, ◌||◌, List, [], ◌∷◌, ◌++◌, ltb, leb, ◌==◌,
  if◌then◌else◌, u32, sub32, ms, secs, update, lookup_or, insert, ◌/◌,
}
use immersive.Protocol.Messages.{FrameAck}
use immersive.Server.Rate.{Float32, RateControl, rate_on_sent, k_max_frame_delay}

pub record FlowState : Type 0 where
  pub first_frame : ℕ
  pub last_sent : ℕ
  pub last_ack : ℕ
  pub ack_seen : Bool
  pub last_ack_time : ℕ
  pub last_log : ℕ
  -- by frame % 128
  pub sent_at : ℕ → ℕ

abbrev pub sent_at_size : ℕ
sent_at_size = 128

abbrev pub fresh_flow : FlowState
fresh_flow = record {
  first_frame = 0;
  last_sent = 0;
  last_ack = 0;
  ack_seen = false;
  last_ack_time = 0;
  last_log = 0;
  sent_at = λ _. 0;
}

-- The members of ClientState that the flow control reads and writes, the maps by monitor id.
pub record Link (S : Type 0) : Type 0 where
  pub flow_state : List (ℕ × FlowState)
  pub tcp_unacked : List (ℕ × List ℕ)
  pub rate : RateControl S

abbrev pub flow_of : {S : Type 0} → Link S → ℕ → FlowState
flow_of l monitor = lookup_or fresh_flow monitor l.flow_state

abbrev pub unacked_of : {S : Type 0} → Link S → ℕ → List ℕ
unacked_of l monitor = lookup_or [] monitor l.tcp_unacked

abbrev pub set_flow : {S : Type 0} → Link S → ℕ → FlowState → Link S
set_flow l monitor flow = record l { flow_state = insert monitor flow l.flow_state }

abbrev set_unacked : {S : Type 0} → Link S → ℕ → List ℕ → Link S
set_unacked l monitor q = record l { tcp_unacked = insert monitor q l.tcp_unacked }

-- send_stream_start: the previous stream's acknowledgements are forgotten.
pub start_stream : {S : Type 0} → Link S → ℕ → ℕ → ℕ → Link S
start_stream l monitor first_frame now =
    let l' = set_flow l monitor (record fresh_flow { first_frame = first_frame }) in
    if l.rate.last_ack == 0 then l' else record l' { rate = record l.rate { last_ack = now } }

-- A frame number that restarts drops the acknowledgements behind it.
unfoldable pub flow_on_sent : FlowState → ℕ → ℕ → FlowState
flow_on_sent flow frame now =
    let flow' =
      if frame == 0 || (flow.ack_seen && ltb frame flow.last_ack)
      then record flow { ack_seen = false; last_ack = frame }
      else flow in
    record flow' { last_sent = frame; sent_at = update flow'.sent_at (frame % sent_at_size) now }

-- while (!unacked.empty() && unacked.front() <= flow.last_ack) unacked.pop_front();
pub pop_acked : ℕ → List ℕ → List ℕ
pop_acked last_ack [] = []
pop_acked last_ack (x ∷ xs) =
    let rest = pop_acked last_ack xs in if leb x last_ack then rest else x ∷ xs

abbrev pub k_max_tcp_queue : ℕ
k_max_tcp_queue = 150

-- Whether the oldest frame waits for its acknowledgement for longer than kMaxTcpQueue.
pub is_stuck : FlowState → List ℕ → ℕ → Bool
is_stuck flow [] now = false
is_stuck flow (x ∷ xs) now = ltb (ms k_max_tcp_queue) (now - flow.sent_at (x % sent_at_size))

-- What send_video_packet does with a frame.
pub data Sending : Type 0 where
  over_udp over_tcp dropped : Sending

-- The queue that the frame finds: nothing is limited before this stream's first ACK.
pub purged : FlowState → List ℕ → List ℕ
unfolding pop_acked
purged flow unacked = pop_acked flow.last_ack (if flow.ack_seen then unacked else [])

module _ (fl : Float32) where
  open fl use {Float}

  -- The part of send_video_packet under clients_mutex_, for a client that has an address.
  pub admit_frame : Link Float → Bool → ℕ → ℕ → ℕ → Link Float × Sending
  admit_frame l tcp_media monitor frame now =
      let flow = flow_on_sent (flow_of l monitor) frame now in
      let l1 = record (set_flow l monitor flow) { rate = rate_on_sent fl l.rate now } in
      let unacked = purged flow (unacked_of l monitor) in
      let logged =
        if ltb (secs 2) (now - flow.last_log) then record flow { last_log = now } else flow in
      if not tcp_media
      then (l1, over_udp)
      else if is_stuck flow unacked now
      then (set_unacked (set_flow l1 monitor logged) monitor unacked, dropped)
      else (set_unacked l1 monitor (unacked ++ frame ∷ []), over_tcp)

-- The FRAME_ACK handler on the rate control: frames skipped over within a second are lost ones,
-- and the time from send to ACK is a delay while `sent_at` still holds the frame.
pub rate_on_ack : {S : Type 0} → FlowState → RateControl S → ℕ → ℕ → RateControl S
rate_on_ack flow rate frame now =
    let r1 =
      if flow.ack_seen
        && ltb (u32 (flow.last_ack + 1)) frame
        && ltb (now - flow.last_ack_time) (secs 1)
      then record rate { lost = u32 (rate.lost + sub32 (sub32 frame flow.last_ack) 1) }
      else rate in
    let delay = (now - flow.sent_at (frame % sent_at_size)) / ms 1 in
    let r2 =
      if ltb (sub32 flow.last_sent frame) sent_at_size
      then record r1 { worst_delay = max r1.worst_delay delay }
      else r1 in
    record r2 { last_ack = now }

pub flow_on_ack : FlowState → ℕ → ℕ → FlowState
flow_on_ack flow frame now =
    let delay = (now - flow.sent_at (frame % sent_at_size)) / ms 1 in
    let flow' =
      if ltb (sub32 flow.last_sent frame) sent_at_size
        && ltb k_max_frame_delay delay
        && ltb (secs 2) (now - flow.last_log)
      then record flow { last_log = now }
      else flow in
    record flow' {
      last_ack = if flow.ack_seen then max flow.last_ack frame else frame;
      ack_seen = true;
      last_ack_time = now;
    }

-- The FRAME_ACK handler; an ACK below the stream's first frame is the previous stream's.
pub on_frame_ack : {S : Type 0} → Link S → FrameAck → ℕ → Link S
on_frame_ack l ack now =
    let flow = flow_of l ack.monitor_id in
    if ltb ack.frame_number flow.first_frame then set_flow l ack.monitor_id flow else record l {
      flow_state = insert ack.monitor_id (flow_on_ack flow ack.frame_number now) l.flow_state;
      rate = rate_on_ack flow l.rate ack.frame_number now;
    }
