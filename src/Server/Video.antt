-- ===== src/Server/Video.antt =====
-- host/src/network/server.cpp: the UDP half of send_video_packet, a frame cut into chunks with
-- XOR parity behind them. The parity buffer is a list of its parity_count rows.
pub mod Chunks
pub mod Parity
pub mod Recovery
pub mod Numbering
use immersive.Base.{
  ℕ, zero, suc, ◌+◌, ◌-◌, ◌*◌, ◌/◌, ◌%◌, min, max, bit_xor, List, [], ◌∷◌, ◌++◌, take, drop,
  replicate, ◌==◌, if◌then◌else◌, u16, u32, get_or,
}
use immersive.Protocol.{max_udp_payload, fec_percent}
use immersive.Protocol.Chunks.{compute_chunk_count}
use immersive.Protocol.Messages.{
  VideoPacketHeader, encode_video_packet_header, VideoParityHeader, encode_video_parity_header,
}

-- At least one parity chunk, one for each five chunks, and no more than a 16-bit index leaves.
unfoldable pub parity_count_of : ℕ → ℕ
parity_count_of chunk_count =
    if chunk_count == 0
    then 0
    else u16 (min (65535 - chunk_count) (max 1 ((chunk_count * fec_percent + 99) / 100)))

pub parity_len_of : ℕ → ℕ
parity_len_of size = min size max_udp_payload

-- Chunk `i` of a frame of `size` bytes.
pub chunk : List ℕ → ℕ → ℕ → List ℕ
chunk frame size i =
    let offset = i * max_udp_payload in
    take (min max_udp_payload (size - offset)) (drop offset frame)

-- p[b] ^= data[offset + b] over the bytes of a chunk.
pub xor_into : List ℕ → List ℕ → List ℕ
xor_into [] bytes = []
xor_into (a ∷ row) [] = a ∷ row
xor_into (a ∷ row) (b ∷ bytes) = bit_xor a b ∷ xor_into row bytes

pub xor_row : List (List ℕ) → ℕ → List ℕ → List (List ℕ)
xor_row [] j bytes = []
xor_row (row ∷ rows) zero bytes = xor_into row bytes ∷ rows
xor_row (row ∷ rows) (suc j) bytes = row ∷ xor_row rows j bytes

-- What one sendto carries: its headers, then its payload.
pub record Packet : Type 0 where
  pub header : VideoPacketHeader
  pub parity_header : List ℕ
  pub payload : List ℕ

pub packet_bytes : Packet → List ℕ
packet_bytes p = encode_video_packet_header p.header ++ p.parity_header ++ p.payload

module _ (monitor_id frame_number : ℕ) (frame : List ℕ) (size chunk_count parity_count : ℕ) where
  abbrev pub header_of : ℕ → VideoPacketHeader
  header_of index = record {
    monitor_id = monitor_id;
    frame_number = frame_number;
    chunk_index = index;
    chunk_count = chunk_count;
  }

  -- The loop over the data chunks at chunk `i`, with the parity rows filled so far.
  pub chunk_loop : ℕ → ℕ → List (List ℕ) → List Packet × List (List ℕ)
  unfolding chunk xor_row
  chunk_loop zero i rows = ([], rows)
  chunk_loop (suc left) i rows =
      let bytes = chunk frame size i in
      let rows' = if parity_count == 0 then rows else xor_row rows (i % parity_count) bytes in
      let (packets, last) = chunk_loop left (i + 1) rows' in
      (record { header = header_of i; parity_header = []; payload = bytes } ∷ packets, last)

  -- The loop over the parity rows at row `j`.
  pub parity_loop : ℕ → List (List ℕ) → List Packet
  parity_loop j [] = []
  parity_loop j (row ∷ rows) =
      record {
        header = header_of (u16 (chunk_count + j));
        parity_header =
            encode_video_parity_header (record { frame_size = size; parity_count = parity_count });
        payload = row;
      }
      ∷ parity_loop (j + 1) rows

-- The packets of a frame, in the order of their sendto calls.
pub frame_packets : ℕ → ℕ → List ℕ → ℕ → List Packet
unfolding parity_count_of parity_len_of
frame_packets monitor_id frame_number frame size =
    let chunk_count = compute_chunk_count size in
    let parity_count = parity_count_of chunk_count in
    let parity = replicate parity_count (replicate (parity_len_of size) 0) in
    let (packets, rows) =
      chunk_loop monitor_id frame_number frame size chunk_count parity_count chunk_count 0 parity in
    packets ++ parity_loop monitor_id frame_number frame size chunk_count parity_count 0 rows
