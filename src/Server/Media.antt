-- ===== src/Server/Media.antt =====
-- host/src/network/server.cpp: send_video_packet, a frame to one client over UDP or its TCP queue.
pub mod Counts
pub mod Scale
use immersive.Base.{
  ℕ, Bool, true, false, not, List, [], ◌∷◌, ◌++◌, Option, none, some, if◌then◌else◌, length, u32,
  map,
}
use immersive.Protocol.{video_frame}
use immersive.Protocol.Messages.{VideoFrameHeader, encode_video_frame_header}
use immersive.Server.Rate.{Float32}
use immersive.Server.Flow.{Sending, over_udp, over_tcp, dropped, admit_frame}
use immersive.Server.Video.{packet_bytes, frame_packets}
use immersive.Server.State.{Server, ClientState, Effect, datagram, find_client, change_client}
use immersive.Server.Sending.{Net, send_media_locked}

module _ (fl : Float32) (net : Net) where
  open fl use {Float}

  -- What becomes of an admitted frame: its packets to the client's address, one VIDEO_FRAME in the
  -- client's TCP stream, or nothing.
  pub transmit : ClientState Float → ℕ → ℕ → ℕ → List ℕ → Sending → ClientState Float × List Effect
  transmit c port monitor_id frame_number bytes over_udp = (
    c,
    map (λ p. datagram c.address port (packet_bytes p))
        (frame_packets monitor_id frame_number bytes (length bytes)),
  )
  transmit c port monitor_id frame_number bytes over_tcp =
      let header : VideoFrameHeader = record {
        monitor_id = monitor_id;
        frame_number = frame_number;
      } in
      send_media_locked net c video_frame (encode_video_frame_header header) bytes
  transmit c port monitor_id frame_number bytes dropped = (c, [])

  -- send_video_packet on the entry of its client.
  pub send_frame : ClientState Float → ℕ → ℕ → ℕ → List ℕ → ℕ → ClientState Float × List Effect
  unfolding transmit
  send_frame c port monitor_id frame_number bytes now =
      let (link, sending) = admit_frame fl c.link c.tcp_media monitor_id frame_number now in
      if not c.udp_addr_set
      then (c, [])
      else transmit (record c { link = link }) port monitor_id frame_number bytes sending

  pub send_video_packet : Server Float → ℕ → ℕ → ℕ → List ℕ → ℕ → Server Float × List Effect
  send_video_packet srv client_id monitor_id frame_number bytes now =
      let sent = λ (c : ClientState Float).
        send_frame c srv.config.udp_port monitor_id frame_number bytes now in
      elim (find_client client_id srv.clients) [
        | none ↦ (srv, [])
        | some c ↦ (
          record srv { clients = change_client client_id (λ c. (sent c).0) srv.clients },
          (sent c).1,
        )
      ]
