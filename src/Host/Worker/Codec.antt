-- ===== src/Host/Worker/Codec.antt =====
-- host/src/main.cpp: which encoder stream_worker opens, and at which size; host/src/encoder/
-- encoder.cpp: the software encoder that is left when no other one opens.
pub mod Fits
use immersive.Base.{
  ℕ, zero, suc, ◌+◌, ◌-◌, ◌*◌, ◌/◌, ◌%◌, ◌≤◌, ◌≡◌, Bool, true, false, Option, none, some, ◌==◌,
  if◌then◌else◌, u32,
}
use immersive.Host.Worker.{Size}

-- double, less NaN, which the calculation of a size does not give, with what it relies on: the
-- order, and the rounding of quotients and products around 4096.
pub record Doubles : Type 1 where
  pub Double : Type 0
  pub of_nat : ℕ → Double
  pub lt : Double → Double → Bool
  pub mul : Double → Double → Double
  pub div : Double → Double → Double
  pub add : Double → Double → Double
  pub sqrt : Double → Double
  pub half : Double
  pub trunc : Double → ℕ
  pub lt_self : (x : Double) → lt x x ≡ false
  pub lt_asym : (x y : Double) → lt x y ≡ true → lt y x ≡ false
  pub lt_trans : (x y z : Double) → lt y x ≡ false → lt z y ≡ false → lt z x ≡ false
  pub div-one : (n : ℕ) → lt (div (of_nat 4096) (of_nat n)) (of_nat 1) ≡ false → n ≤ 4096
  pub trunc-mul :
      (n : ℕ) (s : Double)
      → lt (div (of_nat 4096) (of_nat n)) s ≡ false
      → trunc (add (mul (of_nat n) s) half) ≤ 4096

-- VideoCodec.
pub data VideoCodec : Type 0 where
  h264 h265 av1 : VideoCodec

-- The protocol's number of a codec.
pub proto_value : VideoCodec → ℕ
proto_value h264 = 0
proto_value h265 = 1
proto_value av1 = 3

-- Whether the hardware encoder is there and opens for a codec and a size.
abbrev pub Opens : Type 0
Opens = VideoCodec → Size → Bool

-- What is announced in STREAM_START, and the size of the stream.
pub record Choice : Type 0 where
  pub actual_codec : ℕ
  pub size : Size

-- `& ~15`.
abbrev pub whole_blocks : ℕ → ℕ
whole_blocks n = n - n % 16

module _ (d : Doubles) where
  open d use {Double, of_nat, lt, mul, div, add, sqrt, half, trunc}

  pub smaller : Double → Double → Double
  smaller a b = if lt b a then b else a

  -- How much a picture shrinks to be one that H.264 carries.
  pub h264_scale : Size → Double
  h264_scale size =
      let mbs = u32 (u32 (size.width + 15) / 16 * (u32 (size.height + 15) / 16)) in
      smaller
        (smaller (smaller (of_nat 1) (div (of_nat 4096) (of_nat size.width)))
          (div (of_nat 4096) (of_nat size.height)))
        (sqrt (div (of_nat 36864) (of_nat mbs)))

  pub fit_side : Double → ℕ → ℕ
  fit_side s n = whole_blocks (trunc (add (mul (of_nat n) s) half))

  pub fit_h264 : Size → Size
  fit_h264 size =
      let s = h264_scale size in
      if lt s (of_nat 1)
      then record { width = fit_side s size.width; height = fit_side s size.height }
      else size

  -- The size at which a codec is tried.
  pub size_for : VideoCodec → Size → Size
  size_for h264 out = fit_h264 out
  size_for h265 out = out
  size_for av1 out = out

  pub try_codec : Opens → Size → VideoCodec → Option Choice
  try_codec opens out vc =
      if opens vc (size_for vc out)
      then some (record { actual_codec = proto_value vc; size = size_for vc out })
      else none

  pub or_h264 : Opens → Size → Option Choice → Option Choice
  or_h264 opens out (some choice) = some choice
  or_h264 opens out none = try_codec opens out h264

  -- The hardware codecs that are tried for a request.
  pub try_requested : Opens → Size → ℕ → Option Choice
  try_requested opens out requested_codec =
      if requested_codec == 0
      then try_codec opens out h264
      else if requested_codec == 1
      then or_h264 opens out (try_codec opens out h265)
      else if requested_codec == 3
      then or_h264 opens out (try_codec opens out av1)
      else none

  -- MJPEG, whose encoder always opens, if none of them did.
  pub or_mjpeg : Size → Option Choice → Choice
  or_mjpeg out (some choice) = choice
  or_mjpeg out none = record { actual_codec = 2; size = out }

  pub choose_codec : Opens → Size → ℕ → Choice
  choose_codec opens out requested_codec = or_mjpeg out (try_requested opens out requested_codec)
