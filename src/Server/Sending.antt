-- ===== src/Server/Sending.antt =====
-- host/src/network/server.cpp: the messages that the host sends. Whether a send_tcp of given
-- bytes to a given socket succeeds is a parameter, `net`.
pub mod Writes
pub mod Counts
pub mod Links
use immersive.Base.{
  ℕ, zero, suc, ◌+◌, ◌-◌, ◌*◌, ◌^◌, min, Bool, true, false, not, ◌&&◌, List, [], ◌∷◌, ◌++◌, Option,
  none, some, ltb, ◌==◌, if◌then◌else◌, length, take, replicate, concat, map, u8, u32, padded,
}
use immersive.Protocol.{
  MessageType, hello_ack, monitor_list, stream_start, hello_reject, video_frame, audio_data, code,
  protocol_version,
}
use immersive.Protocol.Messages.{
  encode_header, HelloAck, encode_hello_ack, MonitorInfo, encode_monitor_info, StreamStart,
  encode_stream_start, encode_video_frame_header,
}
use immersive.Server.Flow.{start_stream}
use immersive.Server.State.{
  Server, ClientState, Effect, wrote, broken, shut, datagram, find_client, change_client,
}

abbrev pub Net : Type 0
Net = ℕ → List ℕ → Bool

-- A header and the parts behind it, until one cannot be written.
pub write_parts : Net → ℕ → List (List ℕ) → Bool × List Effect
write_parts net sock [] = (true, [])
write_parts net sock (part ∷ parts) =
    let (ok, effects) = write_parts net sock parts in
    if net sock part then (ok, wrote sock part ∷ effects) else (false, broken sock ∷ [])

header_bytes : MessageType → ℕ → List ℕ
header_bytes type size = encode_header (record { type_code = code type; size = size })

-- An empty payload is not sent.
pub message_parts : MessageType → List ℕ → List (List ℕ)
unfolding header_bytes
message_parts type [] = header_bytes type 0 ∷ []
message_parts type (b ∷ payload) = header_bytes type (length (b ∷ payload)) ∷ (b ∷ payload) ∷ []

-- A message that could not be written whole would shift the stream: the connection goes.
pub write_or_shut : Net → ℕ → List (List ℕ) → Bool × List Effect
write_or_shut net sock parts =
    let (ok, effects) = write_parts net sock parts in
    if ok then (true, effects) else (false, effects ++ shut sock ∷ [])

-- send_monitor_list: count, the records, then a flags byte for each record.
pub monitor_list_payload : List MonitorInfo → List ℕ → List ℕ
monitor_list_payload monitors flags =
    let count = min (length monitors) 255 in
    u8 count
    ∷ (concat (map encode_monitor_info (take count monitors))
        ++ take count (flags ++ replicate (count - length flags) 0))

pub make_ack : {S : Type 0} → Server S → HelloAck
make_ack srv = record {
  protocol_version = protocol_version;
  udp_port = srv.config.udp_port;
  monitor_count = srv.monitor_count;
  host_name = padded 63 srv.host_name;
  flags = srv.host_flags;
}

-- A HELLO_ACK that tells the flags of the moment.
pub ack_parts : {S : Type 0} → Server S → List (List ℕ)
unfolding make_ack header_bytes
ack_parts srv =
    let ack = encode_hello_ack (make_ack srv) in header_bytes hello_ack (length ack) ∷ ack ∷ []

-- The header of a media message, its prefix unless that is empty, and its data.
pub media_parts : MessageType → List ℕ → List ℕ → List (List ℕ)
unfolding header_bytes
media_parts type prefix bytes =
    header_bytes type (u32 (length prefix + length bytes))
    ∷ (if length prefix == 0 then bytes ∷ [] else prefix ∷ bytes ∷ [])

-- A whole HELLO_REJECT.
pub reject_bytes : ℕ → List ℕ
unfolding header_bytes
reject_bytes reason = header_bytes hello_reject 1 ++ reason ∷ []

module _ {S : Type 0} (net : Net) where
  pub send_control_message : Server S → ℕ → MessageType → List ℕ → Bool × List Effect
  unfolding write_or_shut message_parts
  send_control_message srv client_id type payload =
      if ltb (2 ^ 32 - 1) (length payload)
      then (false, [])
      else elim (find_client client_id srv.clients) [
        | none ↦ (false, [])
        | some c ↦ write_or_shut net c.tcp_socket (message_parts type payload)
      ]

  -- To one client, or to every paired one when the id is 0.
  pub send_to : ℕ → List ℕ → List (ClientState S) → List Effect
  send_to client_id bytes [] = []
  send_to client_id bytes (c ∷ cs) =
      (if (if client_id == 0 then c.authed else c.id == client_id)
        then (write_or_shut net c.tcp_socket (bytes ∷ [])).1
        else [])
      ++ send_to client_id bytes cs

  pub send_monitor_list : Server S → ℕ → List MonitorInfo → List ℕ → List Effect
  unfolding monitor_list_payload send_to header_bytes
  send_monitor_list srv client_id monitors flags =
      let payload = monitor_list_payload monitors flags in
      send_to client_id (header_bytes monitor_list (length payload) ++ payload) srv.clients

  pub send_stream_start : Server S → ℕ → StreamStart → ℕ → Server S × List Effect
  unfolding send_control_message
  send_stream_start srv client_id info now =
      let restart = λ (c : ClientState S). record c {
        link = start_stream c.link info.monitor_id info.first_frame now;
      } in
      let srv' = record srv { clients = change_client client_id restart srv.clients } in
      (srv', (send_control_message srv' client_id stream_start (encode_stream_start info)).1)

  -- send_media_locked: header, prefix and data; after a failure nothing more goes to the client.
  pub send_media_locked :
      ClientState S → MessageType → List ℕ → List ℕ → ClientState S × List Effect
  send_media_locked c type prefix bytes =
      let (ok, effects) = write_parts net c.tcp_socket (media_parts type prefix bytes) in
      if ok
      then (c, effects)
      else (record c { tcp_media = false; udp_addr_set = false }, effects ++ shut c.tcp_socket ∷ [])

  -- One client of broadcast_udp: no audio before the PIN is checked.
  pub broadcast_to : List ℕ → ℕ → ClientState S → ClientState S × List Effect
  broadcast_to bytes port c =
      if not c.authed
      then (c, [])
      else if c.tcp_media
      then send_media_locked c audio_data [] bytes
      else if not c.udp_addr_set
      then (c, [])
      else (c, datagram c.address port bytes ∷ [])

  pub broadcast_clients : List ℕ → ℕ → List (ClientState S) → List (ClientState S) × List Effect
  broadcast_clients bytes port [] = ([], [])
  broadcast_clients bytes port (c ∷ cs) =
      let (c', effects) = broadcast_to bytes port c in
      let (cs', rest) = broadcast_clients bytes port cs in (c' ∷ cs', effects ++ rest)

  pub broadcast_udp : Server S → List ℕ → ℕ → Server S × List Effect
  broadcast_udp srv bytes port = if length bytes == 0 then (srv, []) else (
    record srv { clients = (broadcast_clients bytes port srv.clients).0 },
    (broadcast_clients bytes port srv.clients).1,
  )

  -- The header and the HELLO_ACK go to each paired client.
  pub send_ack_to : List (List ℕ) → List (ClientState S) → List Effect
  send_ack_to parts [] = []
  send_ack_to parts (c ∷ cs) =
      (if c.authed then (write_or_shut net c.tcp_socket parts).1 else []) ++ send_ack_to parts cs

  -- New flags are sent in a fresh HELLO_ACK to every paired client.
  pub set_host_flags : Server S → ℕ → Server S × List Effect
  set_host_flags srv flags =
      let srv' = record srv { host_flags = flags } in
      if srv.host_flags == flags
      then (srv, [])
      else (srv', send_ack_to (ack_parts srv') srv.clients)

-- send_reject: one HELLO_REJECT straight to a socket.
pub send_reject : Net → ℕ → ℕ → List Effect
send_reject net sock reason = (write_parts net sock (reject_bytes reason ∷ [])).1
