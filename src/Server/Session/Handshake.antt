-- ===== src/Server/Session/Handshake.antt =====
-- host/src/network/server.cpp: what a connection can do before its HELLO is accepted. Each round of
-- handle_client meets whatever server the other threads have left.
use immersive.Base.{
  ℕ, ◌≡◌, refl, ◌∙◌, Bool, false, ◌&&◌, List, [], ◌∷◌, ◌++◌, All, All-append, All-mono, arith, ltb,
  leb, ◌==◌, if◌then◌else◌, length, Bool-cases, inl, inr, contains,
}
use immersive.Protocol.Messages.{decode_hello, hello_flags_offset}
use immersive.Server.Rate.{Float32}
use immersive.Server.Auth.{judge_hello}
use immersive.Server.Stream.{Incoming, disconnected, oversized, message}
use immersive.Server.State.{
  Server, Effect, wrote, broken, shut, closed, datagram, call, slept, Callback, paired,
}
use immersive.Server.State
use immersive.Server.Sending.{Net, send_reject}
use immersive.Server.Sending.Writes.{IsWrite, send_reject-IsWrite}
use immersive.Server.Session.{
  Session, session_round, handle_message, on_hello, pair_client, refuse_client,
}

-- What an unpaired connection can cause: an answer on its own socket, a pause, the PIN on screen.
pub IsHarmless : ℕ → Effect → Type 0
IsHarmless sock (slept n) = Unit
IsHarmless sock (call (State.Callback.pin_requested peer)) = Unit
IsHarmless sock e = IsWrite sock e

from_write : (sock : ℕ) (e : Effect) → IsWrite sock e → IsHarmless sock e
unfolding IsHarmless IsWrite
from_write sock (wrote to bytes) h = h
from_write sock (broken to) h = h
from_write sock (shut to) h = h
from_write sock (closed to) h = h
from_write sock (datagram to port bytes) h = h
from_write sock (call cb) h = absurd h
from_write sock (slept n) h = tt

module _ (fl : Float32) (net : Net) where
  open fl use {Float}

  send_reject-IsHarmless : (sock reason : ℕ) → All (IsHarmless sock) (send_reject net sock reason)
  send_reject-IsHarmless sock reason =
      All-mono _ (from_write sock) (send_reject-IsWrite net sock reason)

  refuse_client-IsHarmless :
      (s : Session) (was_kicked : Bool) (reason : ℕ)
      → All (IsHarmless s.sock) (refuse_client fl net s was_kicked reason)
  unfolding refuse_client IsHarmless
  refuse_client-IsHarmless s was_kicked reason =
      All-append (IsHarmless s.sock) _ _ (send_reject-IsHarmless s.sock reason) (ground arith)

  -- The HELLO that pairs a connection: whole, past the kick mark and the PIN, and with a place free.
  unfoldable pub hello_passes : Server Float → Session → Incoming → ℕ → Bool
  hello_passes srv s (message type_code payload rest) now =
      (type_code == 1)
      && leb hello_flags_offset (length payload)
      && ((judge_hello srv.auth s.peer (decode_hello payload).pin now).reason == 0)
      && ltb (paired srv.clients) srv.config.max_clients
  hello_passes srv s _ now = false

  -- What a round meets: the server of the moment, a message and the time.
  abbrev pub Meeting : Type 0
  Meeting = Server Float × Incoming × ℕ

  -- The loop of handle_client over such meetings.
  unfoldable pub session_rounds : Session → List Meeting → Session × List Effect
  session_rounds s [] = (s, [])
  session_rounds s ((srv, incoming, now) ∷ meetings) =
      let r = session_round fl net srv s incoming now in
      let rest = session_rounds r.session meetings in
      if r.session.finished then (r.session, r.effects) else (rest.0, r.effects ++ rest.1)

  -- A round pairs an unpaired connection exactly when it reads a HELLO that passes: one that holds
  -- at least all but the flags, from an address that is not marked as kicked, past the PIN check,
  -- while fewer than --max-clients clients are paired.
  pub session_round-authed :
      (srv : Server Float) (s : Session) (incoming : Incoming) (now : ℕ)
      → s.authed ≡ false
      → (session_round fl net srv s incoming now).session.authed ≡ hello_passes srv s incoming now
  unfolding hello_passes session_round handle_message on_hello pair_client
  session_round-authed srv s disconnected now e = e
  session_round-authed srv s oversized now e = e
  session_round-authed srv s (message type_code payload rest) now e = ground arith

  session_round-sock :
      (srv : Server Float) (s : Session) (incoming : Incoming) (now : ℕ)
      → (session_round fl net srv s incoming now).session.sock ≡ s.sock
  unfolding session_round handle_message on_hello pair_client
  session_round-sock srv s disconnected now = refl
  session_round-sock srv s oversized now = refl
  session_round-sock srv s (message type_code payload rest) now = ground arith

  session_round-same :
      (srv : Server Float) (s : Session) (incoming : Incoming) (now : ℕ)
      → s.authed ≡ false
      → hello_passes srv s incoming now ≡ false
      → (session_round fl net srv s incoming now).session.finished ≡ false
      → (session_round fl net srv s incoming now).session ≡ s
  unfolding hello_passes session_round handle_message on_hello pair_client
  session_round-same srv s disconnected now e h f = ground arith
  session_round-same srv s oversized now e h f = ground arith
  session_round-same srv s (message type_code payload rest) now e h f = ground arith

  session_round-IsHarmless :
      (srv : Server Float) (s : Session) (incoming : Incoming) (now : ℕ)
      → s.authed ≡ false
      → hello_passes srv s incoming now ≡ false
      → All (IsHarmless s.sock) (session_round fl net srv s incoming now).effects
  unfolding hello_passes session_round handle_message on_hello pair_client IsHarmless
  session_round-IsHarmless srv s disconnected now e h = tt
  session_round-IsHarmless srv s oversized now e h = tt
  session_round-IsHarmless srv s (message type_code payload rest) now e h =
      let full = send_reject-IsHarmless s.sock 3 in
      let refused =
        refuse_client-IsHarmless s (contains srv.auth.kicked s.peer)
          (judge_hello srv.auth s.peer (decode_hello payload).pin now).reason in
      ground (arith, full, refused)

  session_round-clients :
      (srv : Server Float) (s : Session) (incoming : Incoming) (now : ℕ)
      → s.authed ≡ false
      → hello_passes srv s incoming now ≡ false
      → (session_round fl net srv s incoming now).server.clients ≡ srv.clients
  unfolding hello_passes session_round handle_message on_hello pair_client
  session_round-clients srv s disconnected now e h = refl
  session_round-clients srv s oversized now e h = refl
  session_round-clients srv s (message type_code payload rest) now e h = ground arith

  -- As long as no message is a HELLO that passes, a connection is not paired, whatever it sends and
  -- whatever the other threads do between its rounds: the session stays unpaired, all that its
  -- rounds cause is writes to its own socket, pauses, and the callback that shows the PIN, and each
  -- round leaves the entries of all clients as it meets them, with their marks of who is paired.
  pub session_rounds-IsHarmless :
      (s : Session) (meetings : List Meeting)
      → s.authed ≡ false
      → All (λ (m : Meeting). hello_passes m.0 s m.1 m.2 ≡ false) meetings
      → ((session_rounds s meetings).0.authed ≡ false)
        × All (IsHarmless s.sock) (session_rounds s meetings).1
        × All
            (λ (m : Meeting). (session_round fl net m.0 s m.1 m.2).server.clients ≡ m.0.clients)
            meetings
  unfolding session_rounds
  session_rounds-IsHarmless s [] e h = (e, tt, tt)
  session_rounds-IsHarmless s ((srv, incoming, now) ∷ meetings) e h =
      let r = session_round fl net srv s incoming now in
      let harmless = session_round-IsHarmless srv s incoming now e h.0 in
      let later = session_rounds-IsHarmless s meetings e h.1 in
      let kept = session_round-clients srv s incoming now e h.0 in
      elim (Bool-cases r.session.finished) [
        | inl over ↦
            rw over (session_round-authed srv s incoming now e ∙ h.0, harmless, (kept, later.2))
        | inr not_over ↦
            let same = session_round-same srv s incoming now e h.0 not_over in
            rw (not_over, same)
              (later.0, All-append (IsHarmless s.sock) _ _ harmless later.1, (kept, later.2))
      ]
