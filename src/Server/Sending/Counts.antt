-- ===== src/Server/Sending/Counts.antt =====
-- host/src/network/server.cpp: sending adds no client, drops none and pairs none.
use immersive.Base.{ℕ, ◌≡◌, refl, List, [], ◌∷◌, arith, length}
use immersive.Protocol.{MessageType}
use immersive.Protocol.Messages.{StreamStart}
use immersive.Server.State.{Server, ClientState, paired}
use immersive.Server.State.Clients.{length-change_client, paired-change_client, paired-cons}
use immersive.Server.Sending.{
  Net, send_media_locked, broadcast_to, broadcast_clients, broadcast_udp, send_stream_start,
  set_host_flags,
}

-- The same configuration, number of entries and number of paired entries.
unfoldable pub SameCounts : {S : Type 0} → Server S → Server S → Type 0
SameCounts srv srv' =
    (srv'.config ≡ srv.config)
    × (length srv'.clients ≡ length srv.clients)
    × (paired srv'.clients ≡ paired srv.clients)

module _ {S : Type 0} (net : Net) where
  pub send_media_locked-authed :
      (c : ClientState S) (type : MessageType) (prefix bytes : List ℕ)
      → (send_media_locked net c type prefix bytes).0.authed ≡ c.authed
  unfolding send_media_locked
  send_media_locked-authed c type prefix bytes = ground arith

  broadcast_to-authed :
      (bytes : List ℕ) (port : ℕ) (c : ClientState S)
      → (broadcast_to net bytes port c).0.authed ≡ c.authed
  unfolding broadcast_to send_media_locked
  broadcast_to-authed bytes port c = ground arith

  length-broadcast_clients :
      (bytes : List ℕ) (port : ℕ) (cs : List (ClientState S))
      → length (broadcast_clients net bytes port cs).0 ≡ length cs
  unfolding broadcast_clients
  length-broadcast_clients bytes port [] = refl
  length-broadcast_clients bytes port (c ∷ cs) =
      ground (arith, length-broadcast_clients bytes port cs)

  paired-broadcast_clients :
      (bytes : List ℕ) (port : ℕ) (cs : List (ClientState S))
      → paired (broadcast_clients net bytes port cs).0 ≡ paired cs
  unfolding broadcast_clients
  paired-broadcast_clients bytes port [] = refl
  paired-broadcast_clients bytes port (c ∷ cs) =
      let c' = (broadcast_to net bytes port c).0 in
      let cs' = (broadcast_clients net bytes port cs).0 in
      ground (
        arith,
        paired-cons c' cs',
        paired-cons c cs,
        broadcast_to-authed bytes port c,
        paired-broadcast_clients bytes port cs,
      )

  pub broadcast_udp-SameCounts :
      (srv : Server S) (bytes : List ℕ) (port : ℕ)
      → SameCounts srv (broadcast_udp net srv bytes port).0
  unfolding SameCounts broadcast_udp
  broadcast_udp-SameCounts srv bytes port = ground (
    arith,
    length-broadcast_clients bytes port srv.clients,
    paired-broadcast_clients bytes port srv.clients,
  )

  pub send_stream_start-SameCounts :
      (srv : Server S) (id : ℕ) (info : StreamStart) (now : ℕ)
      → SameCounts srv (send_stream_start net srv id info now).0
  unfolding SameCounts send_stream_start
  send_stream_start-SameCounts srv id info now = (
    refl,
    length-change_client id _ srv.clients,
    paired-change_client id _ srv.clients (λ c. refl),
  )

  pub set_host_flags-SameCounts :
      (srv : Server S) (flags : ℕ) → SameCounts srv (set_host_flags net srv flags).0
  unfolding SameCounts set_host_flags
  set_host_flags-SameCounts srv flags = ground arith
