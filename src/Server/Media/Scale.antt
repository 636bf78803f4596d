-- ===== src/Server/Media/Scale.antt =====
-- host/src/network/server.cpp: a video frame keeps the bitrate share of its client within its bounds.
use immersive.Base.{
  Option, ℕ, ◌≡◌, refl, sym, List, [], All, arith, none, some, Bool-cases, inl, inr,
}
use mathlib.Core.Path.{subst}
use immersive.Protocol.{video_frame}
use immersive.Server.Rate.{Float32, RateControl}
use immersive.Server.Rate.Bounds.{InRange, rate_on_sent-InRange}
use immersive.Server.Flow.{Link, Sending, over_udp, over_tcp, dropped, admit_frame}
use immersive.Server.Flow.Queue.{admit_frame-rate}
use immersive.Server.State.{Server, ClientState, find_client, change_client}
use immersive.Server.State.Clients.{All-change_client}
use immersive.Server.Sending.{Net}
use immersive.Server.State.{Effect}
use immersive.Server.Sending.Links.{send_media_locked-link}
use immersive.Server.Media.{transmit, send_frame, send_video_packet}

module _ (fl : Float32) (net : Net) where
  open fl use {Float}

  -- The share of the client's link is within its bounds.
  abbrev pub HasScale : ClientState Float → Type 0
  HasScale c = InRange fl c.link.rate.scale

  transmit-link :
      (c : ClientState Float) (port monitor_id frame_number : ℕ) (bytes : List ℕ)
      (sending : Sending)
      → (transmit fl net c port monitor_id frame_number bytes sending).0.link ≡ c.link
  unfolding transmit
  transmit-link c port monitor_id frame_number bytes over_udp = refl
  transmit-link c port monitor_id frame_number bytes over_tcp =
      send_media_locked-link net c video_frame _ bytes
  transmit-link c port monitor_id frame_number bytes dropped = refl

  send_frame-InRange :
      (c : ClientState Float) (port monitor_id frame_number : ℕ) (bytes : List ℕ) (now : ℕ)
      → InRange fl c.link.rate.scale
      → InRange fl (send_frame fl net c port monitor_id frame_number bytes now).0.link.rate.scale
  unfolding send_frame
  send_frame-InRange c port monitor_id frame_number bytes now h =
      let admitted = admit_frame fl c.link c.tcp_media monitor_id frame_number now in
      let c' = record c { link = admitted.0 } in
      let sent : InRange fl admitted.0.rate.scale =
        subst (λ (r : RateControl Float). InRange fl r.scale)
          (sym (admit_frame-rate fl c.link c.tcp_media monitor_id frame_number now))
          (rate_on_sent-InRange fl c.link.rate now h) in
      let after : InRange fl
          (transmit fl net c' port monitor_id frame_number bytes admitted.1).0.link.rate.scale =
        subst (λ (l : Link Float). InRange fl l.rate.scale)
          (sym (transmit-link c' port monitor_id frame_number bytes admitted.1)) sent in
      elim (Bool-cases c.udp_addr_set) [
        | inl known ↦ ground (arith, known, after)
        | inr unknown ↦ ground (arith, unknown, h)
      ]

  pub send_video_packet-InRange :
      (srv : Server Float) (id monitor_id frame_number : ℕ) (bytes : List ℕ) (now : ℕ)
      → All HasScale srv.clients
      → All HasScale (send_video_packet fl net srv id monitor_id frame_number bytes now).0.clients
  unfolding send_video_packet
  send_video_packet-InRange srv id monitor_id frame_number bytes now h =
      let sent =
        All-change_client HasScale id
          (λ (c : ClientState Float).
            (send_frame fl net c srv.config.udp_port monitor_id frame_number bytes now).0)
          srv.clients
          (λ c. send_frame-InRange c srv.config.udp_port monitor_id frame_number bytes now) h in
      let result : Option (ClientState Float) → Server Float × List Effect = λ found. elim found [
        | none ↦ (srv, [])
        | some c ↦ (
          record srv {
            clients =
                change_client id
                  (λ (d : ClientState Float).
                    (send_frame fl net d srv.config.udp_port monitor_id frame_number bytes now).0)
                  srv.clients;
          },
          (send_frame fl net c srv.config.udp_port monitor_id frame_number bytes now).1,
        )
      ] in
      elim (find_client id srv.clients) as (λ found. All HasScale (result found).0.clients) [
        | none ↦ h
        | some c ↦ sent
      ]
