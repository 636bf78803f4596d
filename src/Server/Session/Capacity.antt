-- ===== src/Server/Session/Capacity.antt =====
-- host/src/network/server.cpp: how many clients there can be, over every sequence of steps that the
-- accept thread, the clients' threads and the host's calls take on the server.
use immersive.Base.{ℕ, ◌+◌, ◌≡◌, ◌≤◌, refl, ap, List, [], arith, length, Option}
use immersive.Protocol.{MessageType, message_type}
use immersive.Protocol.Messages.{Hello, decode_hello, StreamStart, decode_frame_ack}
use immersive.Server.Rate.{Float32}
use immersive.Server.Flow.{on_frame_ack}
use immersive.Server.Auth.{judge_hello}
use immersive.Server.Stream.{Incoming, disconnected, oversized, message}
use immersive.Server.State.{Server, ServerConfig, ClientState, erase_client, paired}
use immersive.Server.Sending.{Net, send_stream_start, broadcast_udp, set_host_flags}
use immersive.Server.Media.{send_video_packet}
use immersive.Server.Session.{
  Session, k_max_pending, accept_client, session_round, handle_message, on_hello, pair_client,
  paired_client, request_server, end_session, disconnect_client, set_pin, new_client,
}
use immersive.Server.State.Clients.{
  length-change_client, paired-change_client, paired-change_client-le, length-erase_client,
  paired-erase_client, paired-cons, paired_nil,
}
use immersive.Server.Sending.Counts.{
  SameCounts, broadcast_udp-SameCounts, send_stream_start-SameCounts, set_host_flags-SameCounts,
}
use immersive.Server.Media.Counts.{send_video_packet-SameCounts}

-- --max-clients bounds the paired clients, and with kMaxPending the entries of all.
pub WithinCapacity : {S : Type 0} → ℕ → Server S → Type 0
WithinCapacity max_clients srv =
    (srv.config.max_clients ≡ max_clients)
    × (paired srv.clients ≤ max_clients)
    × (length srv.clients ≤ max_clients + k_max_pending)

module _ (fl : Float32) (net : Net) where
  open fl use {Float}

  -- One step of a thread: a socket accepted, a round of a session, its end, or a call of the host.
  pub data Step : Server Float → Server Float → Type 0 where
    accepts :
        (srv : Server Float) (sock address : ℕ) → Step srv (accept_client fl net srv sock address).0
    serves :
        (srv : Server Float) (s : Session) (incoming : Incoming) (now : ℕ)
        → Step srv (session_round fl net srv s incoming now).server
    ends : (srv : Server Float) (s : Session) → Step srv (end_session fl net srv s).0
    disconnects : (srv : Server Float) (id : ℕ) → Step srv (disconnect_client fl net srv id).0
    sets_pin : (srv : Server Float) (pin : ℕ) → Step srv (set_pin fl net srv pin)
    sets_flags : (srv : Server Float) (flags : ℕ) → Step srv (set_host_flags net srv flags).0
    starts_stream :
        (srv : Server Float) (id : ℕ) (info : StreamStart) (now : ℕ)
        → Step srv (send_stream_start net srv id info now).0
    sends_video :
        (srv : Server Float) (id monitor_id frame_number : ℕ) (bytes : List ℕ) (now : ℕ)
        → Step srv (send_video_packet fl net srv id monitor_id frame_number bytes now).0
    broadcasts :
        (srv : Server Float) (bytes : List ℕ) (port : ℕ)
        → Step srv (broadcast_udp net srv bytes port).0

  same_counts :
      (max_clients : ℕ) (srv srv' : Server Float)
      → SameCounts srv srv'
      → WithinCapacity max_clients srv
      → WithinCapacity max_clients srv'
  unfolding WithinCapacity SameCounts
  same_counts max_clients srv srv' e h =
      let same = ap (λ (config : ServerConfig). config.max_clients) e.0 in ground (arith, same)

  accept_client-WithinCapacity :
      (max_clients : ℕ) (srv : Server Float) (sock address : ℕ)
      → WithinCapacity max_clients srv
      → WithinCapacity max_clients (accept_client fl net srv sock address).0
  unfolding WithinCapacity accept_client
  accept_client-WithinCapacity max_clients srv sock address h =
      let cs = erase_client srv.next_client_id srv.clients in
      ground (
        arith,
        paired-cons (new_client fl net srv sock address) cs,
        paired-erase_client srv.next_client_id srv.clients,
        length-erase_client srv.next_client_id srv.clients,
      )

  pair_client-WithinCapacity :
      (max_clients : ℕ) (srv : Server Float) (s : Session) (h : Hello)
      → WithinCapacity max_clients srv
      → WithinCapacity max_clients (pair_client fl net srv s h).server
  unfolding WithinCapacity pair_client
  pair_client-WithinCapacity max_clients srv s h within =
      let pairs = paired_client fl net h in
      ground (
        arith,
        length-change_client s.client_id pairs srv.clients,
        paired-change_client-le s.client_id pairs srv.clients,
      )

  on_hello-WithinCapacity :
      (max_clients : ℕ) (srv : Server Float) (s : Session) (payload : List ℕ) (now : ℕ)
      → WithinCapacity max_clients srv
      → WithinCapacity max_clients (on_hello fl net srv s payload now).server
  unfolding WithinCapacity on_hello
  on_hello-WithinCapacity max_clients srv s payload now within =
      let h = decode_hello payload in
      let judged = record srv { auth = (judge_hello srv.auth s.peer h.pin now).auth } in
      ground (arith, pair_client-WithinCapacity max_clients judged s h within)

  request_server-WithinCapacity :
      (max_clients : ℕ) (srv : Server Float) (id : ℕ) (payload : List ℕ) (now : ℕ)
      (type : Option MessageType)
      → WithinCapacity max_clients srv
      → WithinCapacity max_clients (request_server fl net srv id payload now type)
  unfolding WithinCapacity request_server
  request_server-WithinCapacity max_clients srv id payload now type within =
      let acked = λ (c : ClientState Float). record c {
        link = on_frame_ack c.link (decode_frame_ack payload) now;
      } in
      ground (
        arith,
        length-change_client id acked srv.clients,
        paired-change_client id acked srv.clients (λ c. refl),
      )

  session_round-WithinCapacity :
      (max_clients : ℕ) (srv : Server Float) (s : Session) (incoming : Incoming) (now : ℕ)
      → WithinCapacity max_clients srv
      → WithinCapacity max_clients (session_round fl net srv s incoming now).server
  unfolding session_round handle_message
  session_round-WithinCapacity max_clients srv s disconnected now h = h
  session_round-WithinCapacity max_clients srv s oversized now h = h
  session_round-WithinCapacity max_clients srv s (message type_code payload rest) now h =
      let hello = on_hello-WithinCapacity max_clients srv s payload now h in
      let request =
        request_server-WithinCapacity max_clients srv s.client_id payload now
          (message_type type_code) h in
      ground (arith, hello, request)

  Step-WithinCapacity :
      (max_clients : ℕ) (srv srv' : Server Float)
      → Step srv srv'
      → WithinCapacity max_clients srv
      → WithinCapacity max_clients srv'
  unfolding WithinCapacity disconnect_client end_session set_pin
  Step-WithinCapacity max_clients _ _ (accepts srv sock address) h =
      accept_client-WithinCapacity max_clients srv sock address h
  Step-WithinCapacity max_clients _ _ (serves srv s incoming now) h =
      session_round-WithinCapacity max_clients srv s incoming now h
  Step-WithinCapacity max_clients _ _ (ends srv s) h = ground (
    arith,
    paired-erase_client s.client_id srv.clients,
    length-erase_client s.client_id srv.clients,
  )
  Step-WithinCapacity max_clients _ _ (disconnects srv id) h = ground arith
  Step-WithinCapacity max_clients _ _ (sets_pin srv pin) h = h
  Step-WithinCapacity max_clients _ _ (sets_flags srv flags) h =
      same_counts max_clients srv _ (set_host_flags-SameCounts net srv flags) h
  Step-WithinCapacity max_clients _ _ (starts_stream srv id info now) h =
      same_counts max_clients srv _ (send_stream_start-SameCounts net srv id info now) h
  Step-WithinCapacity max_clients _ _ (sends_video srv id monitor_id frame_number bytes now) h =
      same_counts max_clients srv _
        (send_video_packet-SameCounts fl net srv id monitor_id frame_number bytes now) h
  Step-WithinCapacity max_clients _ _ (broadcasts srv bytes port) h =
      same_counts max_clients srv _ (broadcast_udp-SameCounts net srv bytes port) h

  -- What a server can become by any interleaving of such steps.
  pub data Reach : Server Float → Server Float → Type 0 where
    start : (srv : Server Float) → Reach srv srv
    after : (srv srv' srv'' : Server Float) → Reach srv srv' → Step srv' srv'' → Reach srv srv''

  reach :
      (max_clients : ℕ) (srv srv' : Server Float)
      → Reach srv srv'
      → WithinCapacity max_clients srv
      → WithinCapacity max_clients srv'
  reach max_clients _ _ (start srv) h = h
  reach max_clients _ _ (after srv srv' srv'' steps step) h =
      Step-WithinCapacity max_clients srv' srv'' step (reach max_clients srv srv' steps h)

  -- From a server without clients, however the steps of the accept thread, the clients' threads
  -- and the host interleave: no more than --max-clients clients are ever paired, no more than
  -- --max-clients + 8 sockets are held in all, paired or not, and the limit itself stays.
  pub Reach-WithinCapacity :
      (srv srv' : Server Float)
      → Reach srv srv'
      → srv.clients ≡ []
      → WithinCapacity srv.config.max_clients srv'
  unfolding WithinCapacity
  Reach-WithinCapacity srv srv' steps empty =
      let none_paired = paired_nil srv.clients empty in
      let none_held : length srv.clients ≡ 0 = ap length empty in
      reach srv.config.max_clients srv srv' steps (refl, omega arith, omega arith)
