-- ===== src/Server/Stream.antt =====
-- host/src/network/server.cpp: recv_exact, send_tcp and the framing of the control channel.
-- The sockets of the system are a parameter: how many bytes one recv() or send() moves.
pub mod Framing
use immersive.Base.{
  ℕ, zero, suc, ◌+◌, ◌-◌, ◌*◌, ◌^◌, ◌≤◌, ◌<◌, ◌≡◌, ◌≢◌, refl, ap, sym, ◌∙◌, Bool, true, false, List,
  [], ◌∷◌, ◌++◌, Option, none, some, ltb, leb, ◌==◌, if◌then◌else◌, length, take, drop, length-take,
  length-drop, take-append-drop, arith, Bool-cases, inl, inr, append-nil,
}
use immersive.Protocol.Messages.{ControlHeader, encode_header, decode_header, header_size}

-- A blocking stream socket moves at least one byte and at most what is asked and what there is;
-- 0 stands for an error, a time-out and, on reading, for the end of the stream.
pub record Kernel : Type 0 where
  pub recv : ℕ → List ℕ → ℕ
  pub send : List ℕ → ℕ
  pub recv-le : (n : ℕ) (stream : List ℕ) → recv n stream ≤ n
  pub recv-le-length : (n : ℕ) (stream : List ℕ) → recv n stream ≤ length stream
  pub recv-pos : (n : ℕ) (stream : List ℕ) → 0 < n → 0 < length stream → 0 < recv n stream
  pub send-le-length : (bytes : List ℕ) → send bytes ≤ length bytes

module _ (k : Kernel) where
  -- The loop of recv_exact with fuel: what it has read and what is left, or none for failure.
  pub recv_loop : ℕ → ℕ → List ℕ → Option (List ℕ × List ℕ)
  recv_loop zero remaining stream = none
  recv_loop (suc fuel) remaining stream =
      let n = k.recv remaining stream in
      let rest = recv_loop fuel (remaining - n) (drop n stream) in
      if remaining == 0
      then some ([], stream)
      else if n == 0
      then none
      else elim rest [ none ↦ none | some (bytes, left) ↦ some (take n stream ++ bytes, left) ]

  -- Each round reads at least a byte, so a round for each byte and the last test are enough.
  pub recv_exact : ℕ → List ℕ → Option (List ℕ × List ℕ)
  recv_exact size stream = recv_loop (suc size) size stream

  -- The loop of send_tcp with fuel: the bytes written, and whether they are all.
  pub send_loop : ℕ → List ℕ → List ℕ × Bool
  send_loop zero bytes = ([], false)
  send_loop (suc fuel) bytes =
      let n = k.send bytes in
      let (out, ok) = send_loop fuel (drop n bytes) in
      if length bytes == 0
      then ([], true)
      else if n == 0
      then ([], false)
      else (take n bytes ++ out, ok)

  pub send_tcp : List ℕ → List ℕ × Bool
  send_tcp bytes = send_loop (suc (length bytes)) bytes

-- kMaxControlPayload
abbrev pub k_max_control_payload : ℕ
k_max_control_payload = 64 * 1024

-- What the handler of a client reads next from its socket.
pub data Incoming : Type 0 where
  disconnected oversized : Incoming
  message : ℕ → List ℕ → List ℕ → Incoming

pub read_payload : Kernel → ControlHeader → List ℕ → Incoming
read_payload k header stream =
    if ltb k_max_control_payload header.size
    then oversized
    else if header.size == 0
    then message header.type_code [] stream
    else elim (recv_exact k header.size stream) [
      | none ↦ disconnected
      | some (payload, rest) ↦ message header.type_code payload rest
    ]

pub read_message : Kernel → List ℕ → Incoming
read_message k stream = elim (recv_exact k header_size stream) [
  | none ↦ disconnected
  | some (bytes, rest) ↦ read_payload k (decode_header bytes) rest
]

-- A control message as both ends write it: header, then payload.
pub encode_message : ℕ → List ℕ → List ℕ
encode_message type_code payload =
    encode_header (record { type_code = type_code; size = length payload }) ++ payload
