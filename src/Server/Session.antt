-- ===== src/Server/Session.antt =====
-- host/src/network/server.cpp: a client's connection, from tcp_accept_loop through the rounds of
-- handle_client to its end.
pub mod Handshake
pub mod Capacity
pub mod Scale
use immersive.Base.{
  ℕ, zero, suc, ◌+◌, ◌-◌, ◌*◌, ◌/◌, ◌^◌, ◌%◌, ◌≤◌, ◌<◌, ◌≡◌, min, Bool, true, false, not, ◌&&◌,
  ◌||◌, List, [], ◌∷◌, ◌++◌, Option, none, some, ltb, leb, ◌==◌, if◌then◌else◌, length, take, u32,
  u64, u8_at, c_string, select, contains, bit_and, secs,
}
use immersive.Protocol.{
  MessageType, hello, hello_ack, monitor_select, input_mouse, input_keyboard, multi_monitor_select,
  stream_config, virtual_display_create, virtual_display_remove, screen_off, frame_ack,
  request_keyframe, latency_probe, latency_response, ping, message_type, hello_flag_tcp_media,
  reject_server_full, reject_locked_out,
}
use immersive.Protocol.Messages.{
  Hello, decode_hello, hello_flags_offset, encode_hello_ack, MultiMonitorSelect,
  decode_multi_monitor_select, decode_stream_config, decode_input_mouse, decode_input_keyboard,
  decode_frame_ack, decode_latency_probe, LatencyProbe, encode_latency_response,
  decode_virtual_display_create,
}
use immersive.Server.Rate.{Float32, RateControl, initial_rate}
use immersive.Server.Flow.{Link, on_frame_ack}
use immersive.Server.Auth.{Auth, judge_hello, kick}
use immersive.Server.Stream.{Incoming, disconnected, oversized, message}
use immersive.Server.State.{
  Server, ServerConfig, ClientState, Effect, wrote, broken, shut, closed, call, slept, Callback,
  find_client, change_client, erase_client, paired,
}
use immersive.Server.State
use immersive.Server.Sending.{Net, send_control_message, send_reject, make_ack}

-- kMaxPending
abbrev pub k_max_pending : ℕ
k_max_pending = 8

-- The locals of handle_client; `finished` once its loop is left.
pub record Session : Type 0 where
  pub client_id : ℕ
  pub sock : ℕ
  pub peer : ℕ
  pub authed : Bool
  pub finished : Bool

pub new_session : ℕ → ℕ → ℕ → Session
new_session id sock peer = record {
  client_id = id;
  sock = sock;
  peer = peer;
  authed = false;
  finished = false;
}

-- The ids that a MULTI_MONITOR_SELECT names: at most three, and 0xFF is an unused slot.
pub selected_ids : MultiMonitorSelect → List ℕ
selected_ids sel = select (λ id. not (id == 0xFF)) (take (min sel.monitor_count 3) sel.monitor_ids)

module _ (fl : Float32) (net : Net) where
  open fl use {Float, one}

  -- What one round of a loop does: the server, the session and what is seen outside.
  pub record Round : Type 0 where
    pub server : Server Float
    pub session : Session
    pub effects : List Effect

  new_client : Server Float → ℕ → ℕ → ClientState Float
  new_client srv sock address = record {
    id = srv.next_client_id;
    tcp_socket = sock;
    address = address;
    udp_addr_set = true;
    tcp_media = false;
    authed = false;
    name = [];
    link = record { flow_state = []; tcp_unacked = []; rate = initial_rate fl };
  }

  -- tcp_accept_loop on one accepted socket: a session, unless too many sockets are open.
  pub accept_client : Server Float → ℕ → ℕ → Server Float × Option Session × List Effect
  unfolding new_client new_session
  accept_client srv sock address =
      if leb (u32 (srv.config.max_clients + k_max_pending)) (length srv.clients)
      then (srv, none, send_reject net sock reject_server_full ++ closed sock ∷ [])
      else (
        record srv {
          next_client_id = u32 (srv.next_client_id + 1);
          clients = new_client srv sock address ∷ erase_client srv.next_client_id srv.clients;
        },
        some (new_session srv.next_client_id sock address),
        [],
      )

  -- The client's entry once its HELLO is accepted.
  pub paired_client : Hello → ClientState Float → ClientState Float
  paired_client h c =
      let c' = record c { authed = true; name = c_string h.client_name } in
      if bit_and h.flags hello_flag_tcp_media == 0 then c' else record c' {
        tcp_media = true;
        link = record c.link { rate = record c.link.rate { scale = one } };
      }

  -- HELLO accepted, if a place is free.
  pub pair_client : Server Float → Session → Hello → Round
  unfolding paired_client
  pair_client srv s h =
      if leb srv.config.max_clients (paired srv.clients)
      then record {
        server = srv;
        session = record s { finished = true };
        effects = send_reject net s.sock reject_server_full;
      }
      else let srv' = record srv {
        clients = change_client s.client_id (paired_client h) srv.clients;
      } in
        record {
          server = srv';
          session = record s { authed = true };
          effects =
              (send_control_message net srv' s.client_id hello_ack
                (encode_hello_ack (make_ack srv'))).1
              ++ call (State.Callback.client_connected s.client_id) ∷ [];
        }

  -- HELLO refused; the PIN is shown at the PC unless the address is locked out or was kicked.
  pub refuse_client : Session → Bool → ℕ → List Effect
  refuse_client s was_kicked reason =
      send_reject net s.sock reason
      ++ (if not (reason == reject_locked_out) && not was_kicked
          then call (State.Callback.pin_requested s.peer) ∷ []
          else [])

  pub on_hello : Server Float → Session → List ℕ → ℕ → Round
  unfolding refuse_client
  on_hello srv s payload now =
      let h = decode_hello payload in
      let verdict = judge_hello srv.auth s.peer h.pin now in
      let srv' = record srv { auth = verdict.auth } in
      if ltb (length payload) hello_flags_offset
      then record { server = srv; session = s; effects = [] }
      else if verdict.reason == 0
      then pair_client srv' s h
      else record {
        server = srv';
        session = record s { finished = true };
        effects =
            slept verdict.sleep_ms
            ∷ refuse_client s (contains srv.auth.kicked s.peer) verdict.reason;
      }

  latency_reply : LatencyProbe → ℕ → List ℕ
  latency_reply p now = encode_latency_response (record {
    probe_id = p.probe_id;
    client_timestamp = p.client_timestamp;
    server_timestamp = u64 (now / 1000);
  })

  pub call_if : Bool → Callback → List Effect
  call_if enough cb = if enough then call cb ∷ [] else []

  -- What the other requests of a paired client do beside FRAME_ACK.
  pub request_effects : Server Float → ℕ → List ℕ → ℕ → Option MessageType → List Effect
  unfolding selected_ids call_if latency_reply
  request_effects srv id payload now (some monitor_select) =
      call_if (leb 1 (length payload)) (State.Callback.monitor_select id (u8_at payload 0))
  request_effects srv id payload now (some input_mouse) =
      call_if (leb 10 (length payload)) (State.Callback.input_mouse id (decode_input_mouse payload))
  request_effects srv id payload now (some input_keyboard) =
      call_if (leb 5 (length payload))
        (State.Callback.input_keyboard id (decode_input_keyboard payload))
  request_effects srv id payload now (some multi_monitor_select) =
      call_if (leb 5 (length payload)) (
        State.Callback.multi_monitor_select id (selected_ids (decode_multi_monitor_select payload)))
  request_effects srv id payload now (some stream_config) =
      call_if (leb 9 (length payload))
        (State.Callback.stream_config id (decode_stream_config payload))
  request_effects srv id payload now (some request_keyframe) =
      call_if (leb 1 (length payload)) (State.Callback.request_keyframe id (u8_at payload 0))
  request_effects srv id payload now (some virtual_display_create) =
      call_if (leb 5 (length payload))
        (State.Callback.virtual_display_create id (decode_virtual_display_create payload))
  request_effects srv id payload now (some virtual_display_remove) =
      call_if (leb 1 (length payload)) (State.Callback.virtual_display_remove id (u8_at payload 0))
  request_effects srv id payload now (some screen_off) =
      call_if (leb 1 (length payload)) (State.Callback.screen_off id (not (u8_at payload 0 == 0)))
  request_effects srv id payload now (some latency_probe) =
      if leb 16 (length payload)
      then (send_control_message net srv id latency_response
          (latency_reply (decode_latency_probe payload) now)).1
      else []
  request_effects srv id payload now (some ping) = (send_control_message net srv id ping []).1
  request_effects srv id payload now _ = []

  -- FRAME_ACK changes the client's link; no other request changes the server.
  pub request_server : Server Float → ℕ → List ℕ → ℕ → Option MessageType → Server Float
  request_server srv id payload now (some frame_ack) =
      let acked = λ (c : ClientState Float). record c {
        link = on_frame_ack c.link (decode_frame_ack payload) now;
      } in
      if leb 5 (length payload)
      then record srv { clients = change_client id acked srv.clients }
      else srv
  request_server srv id payload now _ = srv

  -- One round of the loop of handle_client: nothing but HELLO is served before a HELLO that passed.
  pub handle_message : Server Float → Session → ℕ → List ℕ → ℕ → Round
  handle_message srv s type_code payload now =
      let type = message_type type_code in
      let is_hello = type_code == 1 in
      if not s.authed && not is_hello
      then record { server = srv; session = record s { finished = true }; effects = [] }
      else if s.authed && is_hello
      then record { server = srv; session = s; effects = [] }
      else if is_hello
      then on_hello srv s payload now
      else record {
        server = request_server srv s.client_id payload now type;
        session = s;
        effects = request_effects srv s.client_id payload now type;
      }

  pub session_round : Server Float → Session → Incoming → ℕ → Round
  session_round srv s disconnected now = record {
    server = srv;
    session = record s { finished = true };
    effects = [];
  }
  session_round srv s oversized now = record {
    server = srv;
    session = record s { finished = true };
    effects = [];
  }
  session_round srv s (message type_code payload rest) now =
      handle_message srv s type_code payload now

  -- Behind the loop: the entry goes, and its socket is closed.
  pub end_session : Server Float → Session → Server Float × List Effect
  end_session srv s = (
    record srv { clients = erase_client s.client_id srv.clients },
    elim (find_client s.client_id srv.clients) [
      | none ↦ call (State.Callback.client_disconnected s.client_id) ∷ []
      | some c ↦ closed c.tcp_socket ∷ call (State.Callback.client_disconnected s.client_id) ∷ []
    ],
  )

  -- disconnect_client: the address is marked and the socket shut down.
  pub disconnect_client : Server Float → ℕ → Server Float × List Effect
  disconnect_client srv id = elim (find_client id srv.clients) [
    | none ↦ (srv, [])
    | some c ↦ (record srv { auth = kick srv.auth c.address }, shut c.tcp_socket ∷ [])
  ]

  pub set_pin : Server Float → ℕ → Server Float
  set_pin srv pin = record srv { auth = record srv.auth { pin = pin } }

  pub link_rate_scale : Server Float → ℕ → Float
  link_rate_scale srv id = elim (find_client id srv.clients) [
    | none ↦ one
    | some c ↦ c.link.rate.scale
  ]
