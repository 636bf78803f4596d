-- ===== src/Host/Worker.antt =====
-- host/src/main.cpp: the settings that stream_worker derives from a display and a stream
-- configuration.
pub mod Settings
pub mod Tuning
pub mod Codec
pub mod Loop
use immersive.Base.{
  ℕ, ◌+◌, ◌*◌, ◌/◌, min, max, Bool, true, false, ◌&&◌, leb, ltb, ◌==◌, if◌then◌else◌, u32,
}
use immersive.Protocol.Messages.{StreamConfig}

-- A width and a height in pixels.
pub record Size : Type 0 where
  pub width : ℕ
  pub height : ℕ

-- Downscaled to the client's width, keeping the aspect.
downscaled : Size → ℕ → Size
downscaled native max_width =
    if leb 320 max_width && ltb max_width native.width
    then record { width = max_width; height = u32 (native.height * max_width) / native.width }
    else native

-- The output resolution, in even numbers from 2 up.
pub output_size : Size → ℕ → Size
unfolding downscaled
output_size native max_width =
    let size = downscaled native max_width in
    record { width = max 2 (size.width / 2 * 2); height = max 2 (size.height / 2 * 2) }

-- The ceilings of take_cfg.
pub record Ceilings : Type 0 where
  pub ceil_kbps : ℕ
  pub ceil_quality : ℕ
  pub fps_cap : ℕ

-- take_cfg: the client's wishes with the host's defaults, for a display and the encoder in use.
pub take_cfg :
    (is_mjpeg cpu_encoder : Bool) (refresh_rate jpeg_quality bitrate_kbps : ℕ)
    → StreamConfig
    → Ceilings
take_cfg is_mjpeg cpu_encoder refresh_rate jpeg_quality bitrate_kbps c =
    let hz = if refresh_rate == 0 then 60 else refresh_rate in
    let wished =
      if ltb 0 c.max_fps
      then c.max_fps
      else if is_mjpeg
      then 24
      else if cpu_encoder
      then min 30 hz
      else hz in
    record {
      ceil_kbps = if ltb 0 c.bitrate_kbps then min c.bitrate_kbps 100000 else bitrate_kbps;
      ceil_quality =
          if leb 10 c.jpeg_quality && leb c.jpeg_quality 95 then c.jpeg_quality else jpeg_quality;
      fps_cap = max 1 (min wished 120);
    }

-- The rate control's buffer at a bitrate, larger over USB.
unfoldable pub vbv_kbit : Bool → ℕ → ℕ
vbv_kbit over_usb kbps = if over_usb then min 8000 (u32 (kbps * 2) / 5) else min 4000 (kbps / 5)
