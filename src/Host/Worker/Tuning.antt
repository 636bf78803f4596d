-- ===== src/Host/Worker/Tuning.antt =====
-- host/src/main.cpp: retune, by which stream_worker fits the running encoder to the link and to the
-- client's settings.
pub mod Forced
pub mod Paced
use immersive.Base.{
  ℕ, ◌+◌, ◌-◌, ◌*◌, ◌/◌, ◌≤◌, ◌≡◌, min, max, Bool, true, false, not, ◌&&◌, ◌||◌, Option, none, some,
  leb, ltb, ◌==◌, if◌then◌else◌, arith,
}
use immersive.Host.Worker.{Ceilings, vbv_kbit}

-- The part of EncoderConfig that retune changes.
pub record EncoderConfig : Type 0 where
  pub fps : ℕ
  pub jpeg_quality : ℕ
  pub bitrate_kbps : ℕ
  pub vbv_kbit : ℕ

-- What the floating point arithmetic makes of the client's share of its link, at least 5 % and at
-- most the whole of it: the product with a number, cut and rounded to a whole number, and the
-- rounded product with twice the share but no more than 1.
pub record Share : Type 0 where
  pub cut : ℕ → ℕ
  pub rounded : ℕ → ℕ
  pub rounded_twice : ℕ → ℕ
  pub cut-le : (n : ℕ) → cut n ≤ n
  pub rounded-le : (n : ℕ) → rounded n ≤ n
  pub rounded_twice-le : (n : ℕ) → rounded_twice n ≤ n

-- Which encoder runs, on which link, and what it answers: reconfigure() with what it runs at and
-- the new configuration, initialize() with the new one.
pub record Encoder : Type 0 where
  pub is_mjpeg : Bool
  pub over_usb : Bool
  pub reconfigure : EncoderConfig → EncoderConfig → Bool
  pub initialize : EncoderConfig → Bool

-- The variables of the worker that retune reads and writes.
pub record Tuning : Type 0 where
  pub config : EncoderConfig
  pub ceilings : Ceilings
  pub cpu_fps : ℕ
  pub fps : ℕ
  pub min_interval_us : ℕ
  pub auto_tune : Bool

-- A bitrate ceiling scaled to the link, at least 1 Mbps.
unfoldable pub link_kbps : Share → ℕ → ℕ
link_kbps share ceil = max (min ceil 1000) (share.cut ceil)

-- The paced rate that is aimed at.
unfoldable pub wished_fps : Encoder → Share → Tuning → ℕ
wished_fps enc share t =
    let f = min t.ceilings.fps_cap t.cpu_fps in
    if enc.is_mjpeg then min f (max 1 (share.rounded_twice t.ceilings.fps_cap)) else f

unfoldable pub wished_config : Encoder → Share → Tuning → EncoderConfig
wished_config enc share t =
    let f = wished_fps enc share t in
    let kbps = link_kbps share t.ceilings.ceil_kbps in
    if enc.is_mjpeg
    then record t.config {
      fps = f;
      jpeg_quality = 10 + share.rounded (t.ceilings.ceil_quality - 10);
    }
    else record t.config { fps = f; bitrate_kbps = kbps; vbv_kbit = vbv_kbit enc.over_usb kbps }

-- A change of the bitrate that is not worth it: a raise below 25 % that is short of the ceiling, or
-- a cut of less than 5 %.
unfoldable pub is_minor : (kbps cur ceil : ℕ) → Bool
is_minor kbps cur ceil =
    if leb cur kbps
    then kbps == cur || ltb (kbps * 4) (cur * 5) && not (kbps == ceil)
    else ltb (cur * 19) (kbps * 20)

-- Whether the encoder is left alone.
unfoldable pub stays : Bool → Tuning → EncoderConfig → Bool
stays forced t c =
    let same = c.fps == t.config.fps && c.jpeg_quality == t.config.jpeg_quality in
    let kbps = c.bitrate_kbps in
    let cur = t.config.bitrate_kbps in
    same && (if forced then kbps == cur else is_minor kbps cur t.ceilings.ceil_kbps)
    || not forced && not t.auto_tune

-- What the encoder runs at after the attempts to change it: live, live but for the frame rate, or
-- opened again if the change is forced. none: it was not changed.
unfoldable pub changed_config :
    Encoder → Bool → EncoderConfig → EncoderConfig → Option EncoderConfig
changed_config enc forced cur c =
    let old_rate = record c { fps = cur.fps } in
    if enc.reconfigure cur c
    then some c
    else if not (c.fps == cur.fps) && enc.reconfigure cur old_rate
    then some old_rate
    else if forced && enc.initialize c
    then some c
    else none

-- The tuning after a call, or none where it returns false: the stream is dead.
unfoldable pub retune_encoder : Encoder → Share → Bool → Tuning → Option Tuning
retune_encoder enc share forced t =
    let f = wished_fps enc share t in
    let c = wished_config enc share t in
    if stays forced t c then some t else elim (changed_config enc forced t.config c) [
      | none ↦ if forced then none else some (record t { auto_tune = false })
      | some live ↦ some (record t { config = live; fps = f; min_interval_us = 1000000 / f })
    ]
