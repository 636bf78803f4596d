-- ===== src/Server/Stream/Framing.antt =====
-- host/src/network/server.cpp: the control channel carries messages whole and in order, however
-- the system cuts its reads and writes.
use immersive.Base.{
  ℕ, zero, suc, ◌-◌, ◌^◌, ◌≤◌, ◌<◌, ◌≡◌, ◌↔◌, refl, ap, sym, ◌∙◌, Bool, true, false, List, [], ◌∷◌,
  ◌++◌, none, some, leb, ◌==◌, if◌then◌else◌, length, take, drop, length-drop, take-append-drop,
  arith, Bool-cases, inl, inr, append-nil, append_assoc, take-split, drop-split, length-append,
  take-length-append, drop-length-append,
}
use immersive.Protocol.Messages.{ControlHeader, encode_header, decode_header, header_size}
use immersive.Protocol.Wire.{decode-encode_header}
use immersive.Server.Stream.{
  Kernel, recv_loop, recv_exact, send_loop, send_tcp, message, read_payload, read_message,
  encode_message, k_max_control_payload,
}

-- `sent` is what was written of `bytes`, and whether that was reported as all.
pub record IsPrefix (bytes : List ℕ) (sent : List ℕ × Bool) : Type 0 where
  pub unsent : List ℕ
  pub whole : sent.0 ++ unsent ≡ bytes
  pub success : (sent.1 ≡ true) ↔ (unsent ≡ [])

module _ (k : Kernel) where
  recv_loop-eq :
      (fuel size : ℕ) (stream : List ℕ)
      → size < fuel
      → recv_loop k fuel size stream
        ≡ (if leb size (length stream) then some (take size stream, drop size stream) else none)
  unfolding recv_loop
  recv_loop-eq zero size stream h = absurd (omega arith)
  recv_loop-eq (suc fuel) size stream h = elim (Bool-cases (size == 0)) [
    | inl done ↦ ground arith
    | inr more ↦
        let n : ℕ = k.recv size stream in
        elim (Bool-cases (n == 0)) [
          | inl stop ↦ ground (arith, k.recv-pos size stream)
          | inr some_ ↦ ground (
            arith,
            recv_loop-eq fuel (size - n) (drop n stream),
            k.recv-le size stream,
            k.recv-le-length size stream,
            length-drop n stream,
            take-split n size stream,
            drop-split n size stream,
          )
        ]
  ]

  -- recv_exact returns exactly the next `size` bytes, in order, and fails only if the stream ends
  -- before them, however many bytes each recv() returns.
  pub recv_exact-eq :
      (size : ℕ) (stream : List ℕ)
      → recv_exact k size stream
        ≡ (if leb size (length stream) then some (take size stream, drop size stream) else none)
  unfolding recv_exact
  recv_exact-eq size stream = recv_loop-eq (suc size) size stream (omega arith)

  send_loop-IsPrefix :
      (fuel : ℕ) (bytes : List ℕ) → length bytes < fuel → IsPrefix bytes (send_loop k fuel bytes)
  unfolding send_loop
  send_loop-IsPrefix zero bytes h = absurd (omega arith)
  send_loop-IsPrefix (suc fuel) [] h = record {
    unsent = [];
    whole = refl;
    success = ((λ _. refl), (λ _. refl));
  }
  send_loop-IsPrefix (suc fuel) (b ∷ bytes) h =
      let filled : (suc (length bytes) == 0) ≡ false = ground arith in
      elim (Bool-cases (k.send (b ∷ bytes) == 0)) [
        | inl stop ↦
            rw (filled, stop)
              (record { unsent = b ∷ bytes; whole = refl; success = ((λ e. cc), (λ e. cc)) })
        | inr some_ ↦
            let n : ℕ = k.send (b ∷ bytes) in
            let ih : IsPrefix (drop n (b ∷ bytes)) (send_loop k fuel (drop n (b ∷ bytes))) =
              send_loop-IsPrefix fuel (drop n (b ∷ bytes))
                (ground (arith, length-drop n (b ∷ bytes), k.send-le-length (b ∷ bytes))) in
            rw (filled, some_)
              (record {
                unsent = ih.unsent;
                whole =
                    append_assoc (take n (b ∷ bytes)) _ ih.unsent
                    ∙ ap (◌++◌ (take n (b ∷ bytes))) ih.whole
                    ∙ take-append-drop n (b ∷ bytes);
                success = ih.success;
              })
      ]

  -- However many bytes each send() takes, send_tcp writes a prefix of its data, and reports
  -- success exactly when that is all of it.
  pub send_tcp-IsPrefix : (bytes : List ℕ) → IsPrefix bytes (send_tcp k bytes)
  unfolding send_tcp
  send_tcp-IsPrefix bytes = send_loop-IsPrefix (suc (length bytes)) bytes (omega arith)

  read_payload-eq :
      (type_code : ℕ) (payload rest : List ℕ)
      → length payload ≤ k_max_control_payload
      → read_payload k (record { type_code = type_code; size = length payload }) (payload ++ rest)
        ≡ message type_code payload rest
  unfolding read_payload
  read_payload-eq type_code [] rest small = ground arith
  read_payload-eq type_code (b ∷ payload) rest small = ground (
    arith,
    recv_exact-eq (suc (length payload)) (b ∷ (payload ++ rest)),
    length-append payload rest,
    take-length-append payload rest,
    drop-length-append payload rest,
  )

  header_bytes-decode :
      (header : ControlHeader)
      → header.type_code < 2 ^ 8
      → header.size < 2 ^ 32
      → decode_header (encode_header header) ≡ header
  header_bytes-decode header t l =
      ap decode_header (sym (append-nil (encode_header header)))
      ∙ decode-encode_header header [] t l

  recv_exact-header :
      (header : ControlHeader) (rest : List ℕ)
      → recv_exact k header_size (encode_header header ++ rest) ≡ some (encode_header header, rest)
  unfolding encode_header
  recv_exact-header header rest =
      ground (arith, recv_exact-eq header_size (encode_header header ++ rest))

  -- A message of at most 64 KB that a peer wrote is read back whole, and the stream goes on
  -- behind it.
  pub read_message-encode_message :
      (type_code : ℕ) (payload rest : List ℕ)
      → type_code < 2 ^ 8
      → length payload ≤ k_max_control_payload
      → read_message k (encode_message type_code payload ++ rest) ≡ message type_code payload rest
  unfolding read_message encode_message
  read_message-encode_message type_code payload rest fits small =
      let header : ControlHeader = record { type_code = type_code; size = length payload } in
      rw
        (
          append_assoc (encode_header header) payload rest,
          read_message,
          recv_exact-header header (payload ++ rest),
          header_bytes-decode header fits (omega arith),
        )
        (read_payload-eq type_code payload rest small)
