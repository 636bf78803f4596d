-- ===== src/Server/Video/Numbering.antt =====
-- host/src/network/server.cpp: how send_video_packet numbers its packets, and how long they are.
use immersive.Base.{
  ℕ, zero, suc, ◌+◌, ◌%◌, ◌≤◌, ◌≡◌, refl, ap, ◌∙◌, List, [], ◌∷◌, ◌++◌, min, length,
  length-replicate, replicate, arith, ◌==◌, if◌then◌else◌, Bool-cases, inl, inr, map, All,
  All-append, u16,
}
use mathlib.Core.List.{map-append}
use immersive.Protocol.Chunks.{compute_chunk_count}
use immersive.Protocol.Messages.{encode_video_packet_header, encode_video_parity_header}
use immersive.Server.Video.{
  chunk, chunk_loop, parity_loop, Packet, xor_row, frame_packets, parity_count_of, parity_len_of,
  packet_bytes,
}
use immersive.Server.Video.Chunks.{length-chunk}
use immersive.Server.Video.Parity.{length-rows_after, length-xor_into}
use immersive.Server.Video.Recovery.{packets, count, parity}

-- i, i + 1, ..., i + n - 1.
abbrev pub iota : ℕ → ℕ → List ℕ
iota i zero = []
iota i (suc n) = i ∷ iota (i + 1) n

iota-append : (i n m : ℕ) → iota i n ++ iota (i + n) m ≡ iota i (n + m)
iota-append i zero m =
    rw (let e : i + 0 ≡ i = omega arith in e, let e : 0 + m ≡ m = omega arith in e)
iota-append i (suc n) m =
    rw
      (
        let e : suc n + m ≡ suc (n + m) = omega arith in e,
        let e : i + suc n ≡ i + 1 + n = omega arith in e,
      )
      (ap (◌∷◌ i) (iota-append (i + 1) n m))

abbrev FitsRow : List ℕ → Type 0
FitsRow row = length row ≤ 1400

-- The largest datagram: both headers and a full payload.
abbrev pub max_packet_size : ℕ
max_packet_size = 1415

abbrev pub FitsPacket : Packet → Type 0
FitsPacket p = length (packet_bytes p) ≤ max_packet_size

xor_row-FitsRow :
    (rows : List (List ℕ)) (j : ℕ) (bytes : List ℕ)
    → All FitsRow rows
    → All FitsRow (xor_row rows j bytes)
unfolding xor_row
xor_row-FitsRow [] j bytes h = tt
xor_row-FitsRow (r ∷ rows) zero bytes h = (rw length-xor_into h.0, h.1)
xor_row-FitsRow (r ∷ rows) (suc j) bytes h = (h.0, xor_row-FitsRow rows j bytes h.1)

replicate-FitsRow : (n : ℕ) (row : List ℕ) → FitsRow row → All FitsRow (replicate n row)
replicate-FitsRow zero row h = tt
replicate-FitsRow (suc n) row h = (h, replicate-FitsRow n row h)

next-FitsRow :
    (p i : ℕ) (bytes : List ℕ) (rows : List (List ℕ))
    → All FitsRow rows
    → All FitsRow (if p == 0 then rows else xor_row rows (i % p) bytes)
next-FitsRow p i bytes rows h = elim (Bool-cases (p == 0)) [
  | inl e ↦ rw e h
  | inr e ↦ rw e (xor_row-FitsRow rows (i % p) bytes h)
]

parity_count_of-fits : (n : ℕ) → n ≤ 65535 → n + parity_count_of n ≤ 65535
unfolding parity_count_of
parity_count_of-fits n h = ground arith

compute_chunk_count-le : (n : ℕ) → compute_chunk_count n ≤ 65535
unfolding compute_chunk_count
compute_chunk_count-le n = omega arith

module _ (m f : ℕ) (frame : List ℕ) (chunks p : ℕ) where
  chunk_loop-indices :
      (left i : ℕ) (rows : List (List ℕ))
      → map (λ q. q.header.chunk_index) (chunk_loop m f frame (length frame) chunks p left i rows).0
        ≡ iota i left
  unfolding chunk_loop
  chunk_loop-indices zero i rows = refl
  chunk_loop-indices (suc left) i rows = ap (◌∷◌ i) (chunk_loop-indices left (i + 1) _)

  parity_loop-indices :
      (rows : List (List ℕ)) (j : ℕ)
      → chunks + j + length rows ≤ 65536
      → map (λ q. q.header.chunk_index) (parity_loop m f frame (length frame) chunks p j rows)
        ≡ iota (chunks + j) (length rows)
  unfolding parity_loop
  parity_loop-indices [] j h = refl
  parity_loop-indices (r ∷ rows) j h =
      rw (let e : u16 (chunks + j) ≡ chunks + j = omega arith in e) (
        ap (◌∷◌ (chunks + j)) (
          parity_loop-indices rows (j + 1) (omega arith)
          ∙ ap (λ k. iota k (length rows)) (omega arith)))

  chunk_loop-Fits :
      (left i : ℕ) (rows : List (List ℕ))
      → All FitsRow rows
      → All FitsPacket (chunk_loop m f frame (length frame) chunks p left i rows).0
        × All FitsRow (chunk_loop m f frame (length frame) chunks p left i rows).1
  unfolding chunk_loop packet_bytes encode_video_packet_header
  chunk_loop-Fits zero i rows h = (tt, h)
  chunk_loop-Fits (suc left) i rows h =
      let bytes : List ℕ = chunk frame (length frame) i in
      let rows' : List (List ℕ) = if p == 0 then rows else xor_row rows (i % p) bytes in
      let (fits, last) = chunk_loop-Fits left (i + 1) rows' (next-FitsRow p i bytes rows h) in
      ((omega (arith, length-chunk frame i), fits), last)

  parity_loop-Fits :
      (rows : List (List ℕ)) (j : ℕ)
      → All FitsRow rows
      → All FitsPacket (parity_loop m f frame (length frame) chunks p j rows)
  unfolding parity_loop packet_bytes encode_video_packet_header encode_video_parity_header
  parity_loop-Fits [] j h = tt
  parity_loop-Fits (r ∷ rows) j h = (omega arith, parity_loop-Fits rows (j + 1) h.1)

module _ (monitor_id frame_number : ℕ) (frame : List ℕ) where
  -- The packets of any frame are numbered from 0 on, data before parity, and each fits 1415 bytes.
  pub frame_packets-IsNumbered :
      (map (λ p. p.header.chunk_index) (packets monitor_id frame_number frame)
        ≡ iota 0 (count monitor_id frame_number frame + parity monitor_id frame_number frame))
      × All FitsPacket (packets monitor_id frame_number frame)
  unfolding frame_packets
  frame_packets-IsNumbered =
      let n : ℕ = compute_chunk_count (length frame) in
      let p : ℕ = parity_count_of n in
      let zeroed : List (List ℕ) = replicate p (replicate (parity_len_of (length frame)) 0) in
      let sent = chunk_loop monitor_id frame_number frame (length frame) n p n 0 zeroed in
      let rows : length sent.1 ≡ p =
        length-rows_after monitor_id frame_number frame (length frame) n p n 0 zeroed
        ∙ length-replicate p _ in
      let fits = chunk_loop-Fits monitor_id frame_number frame n p n 0 zeroed (
        replicate-FitsRow p _ (
          unfold parity_len_of in
          omega (arith, length-replicate {A = ℕ} (min (length frame) 1400) 0))) in
      (
        rw
            (
              map-append,
              chunk_loop-indices monitor_id frame_number frame n p n 0 zeroed,
              parity_loop-indices monitor_id frame_number frame n p sent.1 0 (
                  omega
                    (arith, rows, parity_count_of-fits n (compute_chunk_count-le (length frame)))),
              rows,
              let e : n + 0 ≡ 0 + n = omega arith in e,
            )
            (iota-append 0 n p),
        All-append FitsPacket sent.0 _ fits.0
            (parity_loop-Fits monitor_id frame_number frame n p sent.1 0 fits.1),
      )
