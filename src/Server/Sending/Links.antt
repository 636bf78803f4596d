-- ===== src/Server/Sending/Links.antt =====
-- host/src/network/server.cpp: what the sending operations do to the links of the clients.
use immersive.Base.{ℕ, ◌≡◌, sym, List, [], ◌∷◌, All, arith}
use mathlib.Core.Path.{subst}
use immersive.Protocol.{MessageType}
use immersive.Server.Flow.{Link, start_stream}
use immersive.Server.State.{Server, ClientState}
use immersive.Server.State.Clients.{All-change_client}
use immersive.Protocol.Messages.{StreamStart}
use immersive.Server.Sending.{
  Net, send_media_locked, broadcast_to, broadcast_clients, broadcast_udp, send_stream_start,
  set_host_flags,
}

module _ {S : Type 0} (net : Net) where
  pub send_media_locked-link :
      (c : ClientState S) (type : MessageType) (prefix bytes : List ℕ)
      → (send_media_locked net c type prefix bytes).0.link ≡ c.link
  unfolding send_media_locked
  send_media_locked-link c type prefix bytes = ground arith

  broadcast_to-link :
      (bytes : List ℕ) (port : ℕ) (c : ClientState S)
      → (broadcast_to net bytes port c).0.link ≡ c.link
  unfolding broadcast_to send_media_locked
  broadcast_to-link bytes port c = ground arith

  All-broadcast_clients :
      (P : Link S → Type 0) (bytes : List ℕ) (port : ℕ) (cs : List (ClientState S))
      → All (λ (c : ClientState S). P c.link) cs
      → All (λ (c : ClientState S). P c.link) (broadcast_clients net bytes port cs).0
  unfolding broadcast_clients
  All-broadcast_clients P bytes port [] h = tt
  All-broadcast_clients P bytes port (c ∷ cs) h = (
    subst P (sym (broadcast_to-link bytes port c)) h.0,
    All-broadcast_clients P bytes port cs h.1,
  )

  pub All-broadcast_udp :
      (P : Link S → Type 0) (srv : Server S) (bytes : List ℕ) (port : ℕ)
      → All (λ (c : ClientState S). P c.link) srv.clients
      → All (λ (c : ClientState S). P c.link) (broadcast_udp net srv bytes port).0.clients
  unfolding broadcast_udp
  All-broadcast_udp P srv bytes port h =
      let sent = All-broadcast_clients P bytes port srv.clients h in ground (arith, h, sent)

  pub All-send_stream_start :
      (P : Link S → Type 0) (srv : Server S) (id : ℕ) (info : StreamStart) (now : ℕ)
      → ((l : Link S) → P l → P (start_stream l info.monitor_id info.first_frame now))
      → All (λ (c : ClientState S). P c.link) srv.clients
      → All (λ (c : ClientState S). P c.link) (send_stream_start net srv id info now).0.clients
  unfolding send_stream_start
  All-send_stream_start P srv id info now keep h =
      All-change_client (λ (c : ClientState S). P c.link) id
        (λ (c : ClientState S). record c {
          link = start_stream c.link info.monitor_id info.first_frame now;
        })
        srv.clients (λ c. keep c.link) h

  pub clients-set_host_flags :
      (srv : Server S) (flags : ℕ) → (set_host_flags net srv flags).0.clients ≡ srv.clients
  unfolding set_host_flags
  clients-set_host_flags srv flags = ground arith
