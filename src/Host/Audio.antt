-- ===== src/Host/Audio.antt =====
-- host/src/main.cpp: the audio thread's packets of one captured frame.
pub mod Samples
use immersive.Base.{
  ℕ, zero, suc, ◌+◌, ◌-◌, ◌*◌, ◌/◌, min, Bool, true, false, ◌||◌, List, [], ◌∷◌, ◌++◌, ltb, ◌==◌,
  if◌then◌else◌, length, take, drop, concat, map, u16, u32, le8, le16, le32,
}

-- AudioPacketHeader (its `reserved` is 0) and the samples behind it.
pub record AudioPacket : Type 0 where
  pub seq : ℕ
  pub samples : ℕ
  pub channels : ℕ
  pub pcm : List ℕ

pub audio_packet_bytes : AudioPacket → List ℕ
audio_packet_bytes p =
    le32 p.seq ++ le16 p.samples ++ le8 p.channels ++ le8 0 ++ concat (map le16 p.pcm)

abbrev pub k_frames_per_packet : ℕ
k_frames_per_packet = 288

module _ (channels : ℕ) (samples : List ℕ) where
  -- How many whole frames, a sample for each channel, there are.
  abbrev pub total : ℕ
  total = length samples / channels

  -- The packet at frame `off`.
  pub audio_packet : ℕ → ℕ → AudioPacket
  audio_packet seq off =
      let n = min k_frames_per_packet (total - off) in
      record {
        seq = seq;
        samples = u16 n;
        channels = channels;
        pcm = take (n * channels) (drop (off * channels) samples);
      }

  -- The loop over the packets at frame `off`; each round moves on, so a round for each frame is enough.
  pub audio_loop : ℕ → ℕ → ℕ → List AudioPacket
  audio_loop zero seq off = []
  audio_loop (suc fuel) seq off =
      let rest = audio_loop fuel (u32 (seq + 1)) (off + k_frames_per_packet) in
      if ltb off total then audio_packet seq off ∷ rest else []

-- What is sent of a captured frame, unless nobody streams.
pub audio_packets : ℕ → ℕ → ℕ → List ℕ → List AudioPacket
audio_packets live_stream_count seq channels samples =
    if (live_stream_count == 0) || (channels == 0)
    then []
    else audio_loop channels samples (length samples / channels) seq 0
