-- ===== src/Server/Discovery.antt =====
-- host/src/network/server.cpp: discovery_loop, the answer to a broadcast on the LAN.
use immersive.Base.{
  ℕ, ◌≡◌, ◌<◌, ◌^◌, Bool, ◌||◌, ◌&&◌, not, leb, length-take, List, [], ◌∷◌, Option, none, some, ltb,
  ◌==◌, if◌then◌else◌, length, bit_and, bit_or, padded, arith, refl, take, u8_at, u16_at, u32_at,
}
use immersive.Protocol.{
  protocol_version, discovery_request_magic, discovery_reply_magic, discovery_flag_pin,
  discovery_flag_view_only, host_flag_view_only,
}
use immersive.Protocol.Messages.{
  decode_discovery_request, discovery_request_size, DiscoveryReply, encode_discovery_reply,
}
use mathlib.Core.Option
use immersive.Server.State.{Server}

-- What a client reads from a reply: the port, the monitor count, whether a PIN is asked and
-- whether the host is view-only.
pub read_reply : List ℕ → ℕ × ℕ × Bool × Bool
read_reply b =
    (u16_at b 5, u8_at b 7, not (bit_and (u8_at b 8) 1 == 0), not (bit_and (u8_at b 8) 2 == 0))

u32_at-take : (b : List ℕ) → u32_at (take 5 b) 0 ≡ u32_at b 0
u32_at-take [] = refl
u32_at-take (w ∷ []) = refl
u32_at-take (w ∷ x ∷ []) = refl
u32_at-take (w ∷ x ∷ y ∷ []) = refl
u32_at-take (w ∷ x ∷ y ∷ z ∷ b) = refl

-- What recvfrom() puts into a buffer of a size: of a longer datagram the beginning, but on Windows
-- it fails on one, as on no bytes here.
recv_datagram : (is_windows : Bool) (size : ℕ) → List ℕ → List ℕ
recv_datagram is_windows size datagram =
    if is_windows && ltb size (length datagram) then [] else take size datagram

module _ {S : Type 0} where
  discovery_flags : Server S → ℕ
  discovery_flags srv =
      bit_or (if srv.auth.pin == 0 then 0 else discovery_flag_pin)
        (if bit_and srv.host_flags host_flag_view_only == 0 then 0 else discovery_flag_view_only)

  make_reply : Server S → DiscoveryReply
  make_reply srv = record {
    magic = discovery_reply_magic;
    protocol_version = protocol_version;
    tcp_port = srv.config.tcp_port;
    monitor_count = srv.monitor_count;
    flags = discovery_flags srv;
    host_name = padded 63 srv.host_name;
  }

  -- One datagram of discovery_loop.
  pub answer_discovery : (is_windows : Bool) → Server S → List ℕ → Option (List ℕ)
  answer_discovery is_windows srv datagram =
      let received = recv_datagram is_windows discovery_request_size datagram in
      let request = decode_discovery_request received in
      if ltb (length received) discovery_request_size
        || not (request.magic == discovery_request_magic)
      then none
      else some (encode_discovery_reply (make_reply srv))

  read_reply-make_reply :
      (srv : Server S)
      → srv.config.tcp_port < 2 ^ 16
      → srv.monitor_count < 2 ^ 8
      → read_reply (encode_discovery_reply (make_reply srv)) ≡ (
        srv.config.tcp_port,
        srv.monitor_count,
        not (srv.auth.pin == 0),
        not (bit_and srv.host_flags host_flag_view_only == 0),
      )
  unfolding make_reply discovery_flags read_reply encode_discovery_reply
  read_reply-make_reply srv port_fits count_fits = ground arith

  -- A datagram is answered exactly when it has five bytes, or on a host other than Windows five or
  -- more, and starts with the request's magic number; the reply then tells the TCP port, the monitor count, whether a PIN is set and
  -- whether the host is view-only, as long as the port fits 16 bits and the count 8.
  pub answer_discovery-read :
      (is_windows : Bool) (srv : Server S) (datagram : List ℕ)
      → srv.config.tcp_port < 2 ^ 16
      → srv.monitor_count < 2 ^ 8
      → Option.map read_reply (answer_discovery is_windows srv datagram) ≡ (
          if (length datagram == 5 || not is_windows && leb 5 (length datagram))
            && (u32_at datagram 0 == discovery_request_magic)
          then some (
            srv.config.tcp_port,
            srv.monitor_count,
            not (srv.auth.pin == 0),
            not (bit_and srv.host_flags host_flag_view_only == 0),
          )
          else none)
  unfolding answer_discovery decode_discovery_request recv_datagram
  answer_discovery-read is_windows srv datagram port_fits count_fits = ground (
    arith,
    u32_at-take datagram,
    length-take 5 datagram,
    read_reply-make_reply srv port_fits count_fits,
  )
