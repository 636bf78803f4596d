-- ===== src/Host/Audio/Samples.antt =====
-- host/src/main.cpp: the audio packets carry every whole frame once, in order, numbered on.
use immersive.Base.{
  ℕ, zero, suc, ◌+◌, ◌-◌, ◌*◌, ◌/◌, ◌≡◌, ◌≤◌, ◌<◌, ◌≢◌, refl, sym, ◌∙◌, min, false, List, [], ◌∷◌,
  ◌++◌, ltb, leb, ◌==◌, ◌||◌, length, take, drop, u32, All, arith, Bool-cases, inl, inr, append-nil,
  take-split, drop-drop, length-take, length-drop,
}
use native.Mathlib.Nat.{add-mul, div-mul-le_self, mul-le-mul_right}
use immersive.Host.Audio.{
  AudioPacket, k_frames_per_packet, total, audio_packet, audio_loop, audio_packets,
}

-- The samples of some packets, one after the other.
pub pcm_of : List AudioPacket → List ℕ
pcm_of [] = []
pcm_of (p ∷ packets) = p.pcm ++ pcm_of packets

-- Consecutive numbers, wrapping around as a uint32_t does.
pub IsCounted : ℕ → List AudioPacket → Type 0
IsCounted seq [] = Unit
IsCounted seq (p ∷ packets) = (p.seq ≡ seq) × IsCounted (u32 (seq + 1)) packets

-- A packet holds the frames that it tells of, at most 288.
pub IsFitting : AudioPacket → Type 0
IsFitting p = (length p.pcm ≡ p.samples * p.channels) × (p.samples ≤ 288)

take_no_frames : (n channels : ℕ) (xs : List ℕ) → n ≡ 0 → take (n * channels) xs ≡ []
take_no_frames n channels xs e = let none : n * channels ≡ 0 = rw e (omega arith) in rw none refl

-- The first frames of what is left, and then those behind them.
take-frames :
    (n left off channels : ℕ) (xs : List ℕ)
    → n ≤ left
    → take (n * channels) (drop (off * channels) xs)
        ++ take ((left - n) * channels) (drop ((off + n) * channels) xs)
      ≡ take (left * channels) (drop (off * channels) xs)
take-frames n left off channels xs le =
    let further : (off + n) * channels ≡ off * channels + n * channels = grind arith in
    let fewer : (left - n) * channels ≡ left * channels - n * channels = grind arith in
    let within : n * channels ≤ left * channels = grind arith in
    rw (further, fewer, sym (drop-drop (off * channels) (n * channels) xs))
      (take-split (n * channels) (left * channels) (drop (off * channels) xs) within)

frames-within :
    (n off channels size : ℕ) → n + off ≤ size / channels → n * channels + off * channels ≤ size
frames-within n off channels size h =
    omega
      (arith, add-mul n off channels, mul-le-mul_right channels h, div-mul-le_self size channels)

module _ (channels : ℕ) (samples : List ℕ) where
  pcm_of-audio_loop :
      (fuel seq off : ℕ)
      → total channels samples ≤ off + fuel
      → pcm_of (audio_loop channels samples fuel seq off)
        ≡ take ((total channels samples - off) * channels) (drop (off * channels) samples)
  unfolding audio_loop pcm_of audio_packet
  pcm_of-audio_loop zero seq off h = sym (take_no_frames _ channels _ (omega arith))
  pcm_of-audio_loop (suc fuel) seq off h = elim (Bool-cases (ltb off (total channels samples))) [
    | inr over ↦ rw over (sym (take_no_frames _ channels _ (ground arith)))
    | inl more ↦
        let left : ℕ = total channels samples - off in
        let here : List ℕ = drop (off * channels) samples in
        let rest = pcm_of-audio_loop fuel (u32 (seq + 1)) (off + 288) (omega arith) in
        elim (Bool-cases (leb 288 left)) [
          | inl full ↦
              let n : min 288 left ≡ 288 = ground arith in
              let behind : total channels samples - (off + 288) ≡ left - 288 = omega arith in
              rw (more, n, rest, behind) (take-frames 288 left off channels samples (ground arith))
          | inr last ↦
              let n : min 288 left ≡ left = ground arith in
              let none : total channels samples - (off + 288) ≡ 0 = ground arith in
              rw
                (
                  more,
                  n,
                  rest,
                  take_no_frames _ channels (drop ((off + 288) * channels) samples) none,
                )
                (append-nil (take (left * channels) here))
        ]
  ]

  audio_loop-IsCounted :
      (fuel seq off : ℕ) → IsCounted seq (audio_loop channels samples fuel seq off)
  unfolding audio_loop IsCounted audio_packet
  audio_loop-IsCounted zero seq off = tt
  audio_loop-IsCounted (suc fuel) seq off =
      ground (arith, audio_loop-IsCounted fuel (u32 (seq + 1)) (off + k_frames_per_packet))

  audio_loop-IsFitting :
      (fuel seq off : ℕ) → channels ≢ 0 → All IsFitting (audio_loop channels samples fuel seq off)
  unfolding audio_loop IsFitting audio_packet
  audio_loop-IsFitting zero seq off some_channels = tt
  audio_loop-IsFitting (suc fuel) seq off some_channels =
      let frames : ℕ = total channels samples in
      let n : ℕ = min 288 (frames - off) in
      let there =
        λ (more : off < frames). frames-within n off channels (length samples) (omega arith) in
      ground (
        arith,
        there,
        length-take (n * channels) (drop (off * channels) samples),
        length-drop (off * channels) samples,
        audio_loop-IsFitting fuel (u32 (seq + 1)) (off + 288) some_channels,
      )

-- Of the samples of a captured frame every whole frame (a sample for each channel) is sent once and
-- in order while somebody streams, in packets of at most 288 frames that are numbered on from the
-- sequence number of the moment.
pub audio_packets-pcm :
    (live seq channels : ℕ) (samples : List ℕ)
    → live ≢ 0
    → channels ≢ 0
    → (pcm_of (audio_packets live seq channels samples)
        ≡ take (length samples / channels * channels) samples)
      × IsCounted seq (audio_packets live seq channels samples)
      × All IsFitting (audio_packets live seq channels samples)
unfolding audio_packets
audio_packets-pcm live seq channels samples somebody some_channels =
    let fuel : ℕ = length samples / channels in
    let sent : ((live == 0) || (channels == 0)) ≡ false = ground arith in
    let all_frames : fuel - 0 ≡ fuel = omega arith in
    let no_samples : 0 * channels ≡ 0 = omega arith in
    rw sent (
      pcm_of-audio_loop channels samples fuel seq 0 (omega arith)
          ∙ rw (all_frames, no_samples) refl,
      audio_loop-IsCounted channels samples fuel seq 0,
      audio_loop-IsFitting channels samples fuel seq 0 some_channels,
    )
