-- ===== src/Host/Worker/Settings.antt =====
-- host/src/main.cpp: what a client can ask of an encoder is bounded.
use immersive.Base.{◌⊎◌, ℕ, ◌*◌, ◌/◌, ◌%◌, ◌≡◌, ◌≤◌, ◌<◌, Bool, u32, arith}
use native.Mathlib.Nat.{mul-le-mul_right, mul_comm, div-le_of_le-mul}
use immersive.Protocol.Messages.{StreamConfig}
use immersive.Host.Worker.{Size, downscaled, output_size, take_cfg}

-- A part of the height is no more than the height.
part-le : (height part width : ℕ) → part < width → u32 (height * part) / width ≤ height
part-le height part width lt =
    let narrower : part ≤ width = omega arith in
    let product : u32 (height * part) ≤ height * part = omega arith in
    div-le_of_le-mul width
      (omega (arith, product, mul_comm height part, mul-le-mul_right height narrower))

-- A stream is never larger than its display, has even sides of two pixels or more, and is no wider
-- than the client asks if that is 320 or more.
pub output_size-bounds :
    (native : Size) (max_width : ℕ)
    → 2 ≤ native.width
    → 2 ≤ native.height
    → let out = output_size native max_width in
      ((2 ≤ out.width) × (out.width ≤ native.width) × (out.width % 2 ≡ 0))
      × ((2 ≤ out.height) × (out.height ≤ native.height) × (out.height % 2 ≡ 0))
      × ((max_width < 320) ⊎ (out.width ≤ max_width))
unfolding output_size downscaled
output_size-bounds native max_width w h =
    ground (arith, part-le native.height max_width native.width)

-- Whatever a client sends, the frame rate is capped from 1 to 120 a second, the JPEG quality from
-- 10 to 95 and the bitrate at 100 Mbit/s and above 0, as far as the host's own defaults keep these
-- bounds.
pub take_cfg-bounds :
    (is_mjpeg cpu_encoder : Bool) (refresh_rate jpeg_quality bitrate_kbps : ℕ) (c : StreamConfig)
    → (10 ≤ jpeg_quality) × (jpeg_quality ≤ 95)
    → (0 < bitrate_kbps) × (bitrate_kbps ≤ 100000)
    → let r = take_cfg is_mjpeg cpu_encoder refresh_rate jpeg_quality bitrate_kbps c in
      ((1 ≤ r.fps_cap) × (r.fps_cap ≤ 120))
      × ((10 ≤ r.ceil_quality) × (r.ceil_quality ≤ 95))
      × ((0 < r.ceil_kbps) × (r.ceil_kbps ≤ 100000))
unfolding take_cfg
take_cfg-bounds is_mjpeg cpu_encoder refresh_rate jpeg_quality bitrate_kbps c quality rate =
    ground arith
