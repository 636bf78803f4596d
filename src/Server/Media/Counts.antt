-- ===== src/Server/Media/Counts.antt =====
-- host/src/network/server.cpp: a video frame adds no client, drops none and pairs none.
use immersive.Base.{ℕ, ◌≡◌, refl, List, arith}
use immersive.Server.Rate.{Float32}
use immersive.Server.Flow.{Sending, over_udp, over_tcp, dropped, admit_frame}
use immersive.Protocol.{video_frame}
use immersive.Server.State.{Server, ClientState}
use immersive.Server.State.Clients.{length-change_client, paired-change_client}
use immersive.Server.Sending.{Net}
use immersive.Server.Sending.Counts.{SameCounts, send_media_locked-authed}
use immersive.Server.Media.{transmit, send_frame, send_video_packet}

module _ (fl : Float32) (net : Net) where
  open fl use {Float}

  transmit-authed :
      (c : ClientState Float) (port monitor_id frame_number : ℕ) (bytes : List ℕ)
      (sending : Sending)
      → (transmit fl net c port monitor_id frame_number bytes sending).0.authed ≡ c.authed
  unfolding transmit
  transmit-authed c port monitor_id frame_number bytes over_udp = refl
  transmit-authed c port monitor_id frame_number bytes over_tcp =
      send_media_locked-authed net c video_frame _ bytes
  transmit-authed c port monitor_id frame_number bytes dropped = refl

  send_frame-authed :
      (c : ClientState Float) (port monitor_id frame_number : ℕ) (bytes : List ℕ) (now : ℕ)
      → (send_frame fl net c port monitor_id frame_number bytes now).0.authed ≡ c.authed
  unfolding send_frame
  send_frame-authed c port monitor_id frame_number bytes now =
      let admitted = admit_frame fl c.link c.tcp_media monitor_id frame_number now in
      let c' = record c { link = admitted.0 } in
      ground (arith, transmit-authed c' port monitor_id frame_number bytes admitted.1)

  pub send_video_packet-SameCounts :
      (srv : Server Float) (id monitor_id frame_number : ℕ) (bytes : List ℕ) (now : ℕ)
      → SameCounts srv (send_video_packet fl net srv id monitor_id frame_number bytes now).0
  unfolding SameCounts send_video_packet
  send_video_packet-SameCounts srv id monitor_id frame_number bytes now =
      let sent = λ (c : ClientState Float).
        (send_frame fl net c srv.config.udp_port monitor_id frame_number bytes now).0 in
      ground (
        arith,
        length-change_client id sent srv.clients,
        paired-change_client id sent srv.clients
            (λ c. send_frame-authed c srv.config.udp_port monitor_id frame_number bytes now),
      )
