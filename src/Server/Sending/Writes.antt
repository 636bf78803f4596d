-- ===== src/Server/Sending/Writes.antt =====
-- host/src/network/server.cpp: a write reaches the socket it is for, and the bytes written are a
-- first part of the message.
use immersive.Base.{
  ℕ, ◌≡◌, refl, true, false, List, [], ◌∷◌, All, All-append, All-mono, ◌⊎◌, inl, inr, arith,
  if◌then◌else◌, Bool-cases,
}
use immersive.Protocol.{MessageType, audio_data}
use immersive.Protocol.Messages.{MonitorInfo}
use immersive.Server.State.{Server, ClientState, Effect, wrote, broken, shut, datagram}
use immersive.Server.Sending.{
  Net, write_parts, write_or_shut, send_reject, send_to, broadcast_to, broadcast_clients,
  send_media_locked, send_ack_to, reject_bytes, media_parts, broadcast_udp, send_monitor_list,
  set_host_flags, ack_parts,
}

-- A write to this socket, whole or broken.
unfoldable pub IsWrite : ℕ → Effect → Type 0
IsWrite sock (wrote to bytes) = to ≡ sock
IsWrite sock (broken to) = to ≡ sock
IsWrite sock _ = ⊥

pub write_parts-IsWrite :
    (net : Net) (sock : ℕ) (parts : List (List ℕ))
    → All (IsWrite sock) (write_parts net sock parts).1
unfolding write_parts IsWrite
write_parts-IsWrite net sock [] = tt
write_parts-IsWrite net sock (p ∷ ps) = ground (arith, write_parts-IsWrite net sock ps)

pub send_reject-IsWrite :
    (net : Net) (sock reason : ℕ) → All (IsWrite sock) (send_reject net sock reason)
unfolding send_reject
send_reject-IsWrite net sock reason = write_parts-IsWrite net sock ((reject_bytes reason) ∷ [])

-- Something that reaches the peer of this entry, on its socket or its media address.
pub Reaches : {S : Type 0} → ClientState S → Effect → Type 0
Reaches c (wrote to bytes) = to ≡ c.tcp_socket
Reaches c (broken to) = to ≡ c.tcp_socket
Reaches c (shut to) = to ≡ c.tcp_socket
Reaches c (datagram to port bytes) = to ≡ c.address
Reaches c _ = ⊥

module _ {S : Type 0} (net : Net) where
  write_parts-Reaches :
      (c : ClientState S) (parts : List (List ℕ))
      → All (Reaches c) (write_parts net c.tcp_socket parts).1
  unfolding write_parts Reaches
  write_parts-Reaches c [] = tt
  write_parts-Reaches c (p ∷ ps) = ground (arith, write_parts-Reaches c ps)

  write_or_shut-Reaches :
      (c : ClientState S) (parts : List (List ℕ))
      → All (Reaches c) (write_or_shut net c.tcp_socket parts).1
  unfolding write_or_shut Reaches
  write_or_shut-Reaches c parts =
      let writes = write_parts-Reaches c parts in
      let shuts = All-append (Reaches c) _ (shut c.tcp_socket ∷ []) writes (refl, tt) in
      ground (arith, writes, shuts)

  send_media_locked-Reaches :
      (c : ClientState S) (type : MessageType) (prefix bytes : List ℕ)
      → All (Reaches c) (send_media_locked net c type prefix bytes).1
  unfolding send_media_locked Reaches
  send_media_locked-Reaches c type prefix bytes =
      let parts = media_parts type prefix bytes in
      let writes = write_parts-Reaches c parts in
      let shuts = All-append (Reaches c) _ (shut c.tcp_socket ∷ []) writes (refl, tt) in
      ground (arith, writes, shuts)

  -- Something that reaches the peer of a paired entry.
  pub ReachesPaired : List (ClientState S) → Effect → Type 0
  ReachesPaired [] e = ⊥
  ReachesPaired (c ∷ cs) e = ((c.authed ≡ true) × Reaches c e) ⊎ ReachesPaired cs e

  to_paired :
      (c : ClientState S) (cs : List (ClientState S)) (effects : List Effect)
      → (c.authed ≡ false → effects ≡ [])
      → All (Reaches c) effects
      → All (ReachesPaired (c ∷ cs)) effects
  unfolding ReachesPaired
  to_paired c cs effects unpaired reaches = elim (Bool-cases c.authed) [
    | inl is_paired ↦ All-mono effects (λ e h. inl (is_paired, h)) reaches
    | inr not_paired ↦ rw (unpaired not_paired) tt
  ]

  broadcast_clients-ReachesPaired :
      (bytes : List ℕ) (port : ℕ) (cs : List (ClientState S))
      → All (ReachesPaired cs) (broadcast_clients net bytes port cs).1
  unfolding broadcast_clients broadcast_to Reaches ReachesPaired
  broadcast_clients-ReachesPaired bytes port [] = tt
  broadcast_clients-ReachesPaired bytes port (c ∷ cs) =
      let sent = send_media_locked-Reaches c audio_data [] bytes in
      let first : All (Reaches c) (broadcast_to net bytes port c).1 = ground (arith, sent) in
      All-append (ReachesPaired (c ∷ cs)) _ _ (to_paired c cs _ (λ e. ground arith) first)
        (All-mono _ (λ e h. inr h) (broadcast_clients-ReachesPaired bytes port cs))

  send_to-ReachesPaired :
      (bytes : List ℕ) (cs : List (ClientState S)) → All (ReachesPaired cs) (send_to net 0 bytes cs)
  unfolding send_to ReachesPaired
  send_to-ReachesPaired bytes [] = tt
  send_to-ReachesPaired bytes (c ∷ cs) =
      let sent = write_or_shut-Reaches c (bytes ∷ []) in
      let effects = if c.authed then (write_or_shut net c.tcp_socket (bytes ∷ [])).1 else [] in
      let first : All (Reaches c) effects = ground (arith, sent) in
      All-append (ReachesPaired (c ∷ cs)) effects _
        (to_paired c cs effects (λ e. ground arith) first)
        (All-mono _ (λ e h. inr h) (send_to-ReachesPaired bytes cs))

  send_ack_to-ReachesPaired :
      (parts : List (List ℕ)) (cs : List (ClientState S))
      → All (ReachesPaired cs) (send_ack_to net parts cs)
  unfolding send_ack_to ReachesPaired
  send_ack_to-ReachesPaired parts [] = tt
  send_ack_to-ReachesPaired parts (c ∷ cs) =
      let sent = write_or_shut-Reaches c parts in
      let effects = if c.authed then (write_or_shut net c.tcp_socket parts).1 else [] in
      let first : All (Reaches c) effects = ground (arith, sent) in
      All-append (ReachesPaired (c ∷ cs)) effects _
        (to_paired c cs effects (λ e. ground arith) first)
        (All-mono _ (λ e h. inr h) (send_ack_to-ReachesPaired parts cs))

  -- Sound, a monitor list for every client (client id 0) and new host flags reach paired clients
  -- only: whatever these three cause is a write to or a shutdown of the socket of an entry whose
  -- HELLO was accepted, or a datagram to its address.
  pub broadcasts-ReachesPaired :
      (srv : Server S) (bytes : List ℕ) (port : ℕ) (monitors : List MonitorInfo)
      (monitor_flags : List ℕ) (flags : ℕ)
      → All (ReachesPaired srv.clients) (broadcast_udp net srv bytes port).1
        × All (ReachesPaired srv.clients) (send_monitor_list net srv 0 monitors monitor_flags)
        × All (ReachesPaired srv.clients) (set_host_flags net srv flags).1
  unfolding broadcast_udp send_monitor_list set_host_flags
  broadcasts-ReachesPaired srv bytes port monitors monitor_flags flags =
      let sound = broadcast_clients-ReachesPaired bytes port srv.clients in
      let ack =
        send_ack_to-ReachesPaired (ack_parts (record srv { host_flags = flags })) srv.clients in
      (ground (arith, sound), send_to-ReachesPaired _ srv.clients, ground (arith, ack))
