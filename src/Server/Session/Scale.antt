-- ===== src/Server/Session/Scale.antt =====
-- host/src/network/server.cpp: the bitrate share that link_rate_scale tells, over every sequence of
-- steps on the server.
use immersive.Base.{ℕ, ◌≡◌, sym, List, [], All, arith, Option, Option-cases, none, some, inl, inr}
use mathlib.Core.Path.{subst}
use immersive.Protocol.{MessageType, message_type}
use immersive.Protocol.Messages.{Hello, decode_hello, decode_frame_ack, FrameAck}
use immersive.Server.Rate.{Float32}
use immersive.Server.Rate.Bounds.{InRange}
use immersive.Server.Flow.{Link, on_frame_ack}
use immersive.Server.Flow.Acks.{scale-on_frame_ack, scale-start_stream}
use immersive.Server.Auth.{judge_hello}
use immersive.Server.Stream.{Incoming, disconnected, oversized, message}
use immersive.Server.State.{Server, ClientState, find_client}
use immersive.Server.State.Clients.{All-change_client, All-erase_client, found_in}
use immersive.Server.Sending.{Net}
use immersive.Server.Sending.Links.{
  All-broadcast_udp, All-send_stream_start, clients-set_host_flags,
}
use immersive.Server.Media.Scale.{HasScale, send_video_packet-InRange}
use immersive.Server.Session.{
  Session, accept_client, session_round, handle_message, on_hello, pair_client, paired_client,
  request_server, end_session, disconnect_client, set_pin, new_client, link_rate_scale,
}
use immersive.Server.Session.Capacity.{
  Step, accepts, serves, ends, disconnects, sets_pin, sets_flags, starts_stream, sends_video,
  broadcasts, Reach, start, after,
}

module _ (fl : Float32) (net : Net) where
  open fl use {Float, half, one}

  -- The share of every client's link is within its bounds.
  abbrev pub HasScales : Server Float → Type 0
  HasScales srv = All (HasScale fl net) srv.clients

  accept_client-HasScales :
      (srv : Server Float) (sock address : ℕ)
      → HasScales srv
      → HasScales (accept_client fl net srv sock address).0
  unfolding accept_client
  accept_client-HasScales srv sock address h =
      let fresh : HasScale fl net (new_client fl net srv sock address) =
        (fl.min-half, fl.half-one) in
      let kept = All-erase_client (HasScale fl net) srv.next_client_id srv.clients h in
      ground (arith, fresh, kept)

  paired_client-HasScale :
      (h : Hello) (c : ClientState Float)
      → HasScale fl net c
      → HasScale fl net (paired_client fl net h c)
  unfolding paired_client
  paired_client-HasScale h c old =
      let top : InRange fl one =
        (fl.le_trans _ half _ fl.min-half fl.half-one, (fl.le-self _ _ fl.half-one).1) in
      ground (arith, old, top)

  pair_client-HasScales :
      (srv : Server Float) (s : Session) (h : Hello)
      → HasScales srv
      → HasScales (pair_client fl net srv s h).server
  unfolding pair_client
  pair_client-HasScales srv s h old =
      let changed =
        All-change_client (HasScale fl net) s.client_id (paired_client fl net h) srv.clients
          (paired_client-HasScale h) old in
      ground (arith, old, changed)

  on_hello-HasScales :
      (srv : Server Float) (s : Session) (payload : List ℕ) (now : ℕ)
      → HasScales srv
      → HasScales (on_hello fl net srv s payload now).server
  unfolding on_hello
  on_hello-HasScales srv s payload now h =
      let hello = decode_hello payload in
      let judged = record srv { auth = (judge_hello srv.auth s.peer hello.pin now).auth } in
      ground (arith, h, pair_client-HasScales judged s hello h)

  on_frame_ack-HasScale :
      (ack : FrameAck) (now : ℕ) (c : ClientState Float)
      → HasScale fl net c
      → InRange fl (on_frame_ack c.link ack now).rate.scale
  on_frame_ack-HasScale ack now c h = subst (InRange fl) (sym (scale-on_frame_ack c.link ack now)) h

  request_server-HasScales :
      (srv : Server Float) (id : ℕ) (payload : List ℕ) (now : ℕ) (type : Option MessageType)
      → HasScales srv
      → HasScales (request_server fl net srv id payload now type)
  unfolding request_server
  request_server-HasScales srv id payload now type h =
      let ack = decode_frame_ack payload in
      let acked =
        All-change_client (HasScale fl net) id
          (λ (c : ClientState Float). record c { link = on_frame_ack c.link ack now }) srv.clients
          (on_frame_ack-HasScale ack now) h in
      ground (arith, h, acked)

  session_round-HasScales :
      (srv : Server Float) (s : Session) (incoming : Incoming) (now : ℕ)
      → HasScales srv
      → HasScales (session_round fl net srv s incoming now).server
  unfolding session_round handle_message
  session_round-HasScales srv s disconnected now h = h
  session_round-HasScales srv s oversized now h = h
  session_round-HasScales srv s (message type_code payload rest) now h =
      let hello = on_hello-HasScales srv s payload now h in
      let request =
        request_server-HasScales srv s.client_id payload now (message_type type_code) h in
      ground (arith, h, hello, request)

  Step-HasScales : (srv srv' : Server Float) → Step fl net srv srv' → HasScales srv → HasScales srv'
  unfolding disconnect_client end_session set_pin
  Step-HasScales _ _ (accepts srv sock address) h = accept_client-HasScales srv sock address h
  Step-HasScales _ _ (serves srv s incoming now) h = session_round-HasScales srv s incoming now h
  Step-HasScales _ _ (ends srv s) h = All-erase_client (HasScale fl net) s.client_id srv.clients h
  Step-HasScales _ _ (disconnects srv id) h = ground (arith, h)
  Step-HasScales _ _ (sets_pin srv pin) h = h
  Step-HasScales _ _ (sets_flags srv flags) h =
      subst (All (HasScale fl net)) (sym (clients-set_host_flags net srv flags)) h
  Step-HasScales _ _ (starts_stream srv id info now) h =
      All-send_stream_start net (λ (l : Link Float). InRange fl l.rate.scale) srv id info now
        (λ l. subst (InRange fl) (sym (scale-start_stream l info.monitor_id info.first_frame now)))
        h
  Step-HasScales _ _ (sends_video srv id monitor_id frame_number bytes now) h =
      send_video_packet-InRange fl net srv id monitor_id frame_number bytes now h
  Step-HasScales _ _ (broadcasts srv bytes port) h =
      All-broadcast_udp net (λ (l : Link Float). InRange fl l.rate.scale) srv bytes port h

  Reach-HasScales :
      (srv srv' : Server Float) → Reach fl net srv srv' → HasScales srv → HasScales srv'
  Reach-HasScales _ _ (start srv) h = h
  Reach-HasScales _ _ (after srv srv' srv'' steps step) h =
      Step-HasScales srv' srv'' step (Reach-HasScales srv srv' steps h)

  link_rate_scale-HasScales :
      (srv : Server Float) (id : ℕ) → HasScales srv → InRange fl (link_rate_scale fl net srv id)
  unfolding link_rate_scale
  link_rate_scale-HasScales srv id h =
      let top : InRange fl one =
        (fl.le_trans _ half _ fl.min-half fl.half-one, (fl.le-self _ _ fl.half-one).1) in
      let known : (c : ClientState Float)
          → find_client id srv.clients ≡ some c
          → HasScale fl net c =
        λ c e. found_in (HasScale fl net) id srv.clients c e h in
      let share : Option (ClientState Float) → Float =
        λ found. elim found [ none ↦ one | some c ↦ c.link.rate.scale ] in
      elim (Option-cases (find_client id srv.clients)) [
        | inl missing ↦ subst (λ o. InRange fl (share o)) (sym missing) top
        | inr (c, found) ↦ subst (λ o. InRange fl (share o)) (sym found) (known c found)
      ]

  -- From a server without clients, however the steps of the accept thread, the clients' threads
  -- and the host interleave: the share of its bitrate that link_rate_scale tells the host of any
  -- client stays between 5 % and 100 %.
  pub Reach-link_rate_scale :
      (srv srv' : Server Float) (id : ℕ)
      → Reach fl net srv srv'
      → srv.clients ≡ []
      → InRange fl (link_rate_scale fl net srv' id)
  Reach-link_rate_scale srv srv' id steps empty =
      let nobody : HasScales srv = subst (All (HasScale fl net)) (sym empty) tt in
      link_rate_scale-HasScales srv' id (Reach-HasScales srv srv' steps nobody)
