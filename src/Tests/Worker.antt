-- ===== src/Tests/Worker.antt =====
-- The theorems on the stream workers at concrete inputs.
use immersive.Base.{
  ℕ, ◌+◌, ◌*◌, ◌/◌, ◌≡◌, ◌≤◌, ◌⊎◌, ◌==◌, refl, true, false, List, [], ◌∷◌, ◌++◌, none, some, arith,
  All, min, secs, length,
}
use immersive.Host.Scaling.{scale_bgra_bilinear}
use immersive.Host.Scaling.Bounds.{Within, scale_bgra_bilinear-Within}
use immersive.Host.Worker.{vbv_kbit}
use immersive.Host.Worker.Tuning.{
  Share, Encoder, Tuning, link_kbps, wished_fps, wished_config, is_minor, stays, changed_config,
  retune_encoder,
}
use immersive.Host.Worker.Tuning.Forced.{IsCapped, set_cap, retune_encoder-forced}
use immersive.Host.Worker.Tuning.Paced.{IsPaced}
use immersive.Host.Worker.Loop.{
  Worker, Round, take_settings, tick, next_frame, worker_round, worker_rounds,
}
use immersive.Host.Worker.Loop.Pacing.{Spaced, sends, worker_rounds-Spaced}
use immersive.Host.Worker.Loop.Held.{Encodes, worker_rounds-captured}

-- Two pixels, scaled to three.
abbrev two_pixels : List ℕ
two_pixels = 10 ∷ 20 ∷ 30 ∷ 255 ∷ 90 ∷ 80 ∷ 70 ∷ 255 ∷ []

scale_bgra_bilinear-Within_example :
    All (Within 10 255) (scale_bgra_bilinear two_pixels 2 1 8 [] 3 1)
    × (length (scale_bgra_bilinear two_pixels 2 1 8 [] 3 1) ≡ 1 * (3 * 4))
scale_bgra_bilinear-Within_example =
    scale_bgra_bilinear-Within two_pixels 2 1 8 [] 3 1 10 255 (omega arith, omega arith)
      (omega arith, omega arith) (omega arith) (omega arith) (omega arith) (omega arith)
      (omega arith) (omega arith)

-- Half of the link.
abbrev half_share : Share
half_share = record {
  cut = λ n. n / 2;
  rounded = λ n. n / 2;
  rounded_twice = λ n. n;
  cut-le = λ n. omega arith;
  rounded-le = λ n. omega arith;
  rounded_twice-le = λ n. omega arith;
}

-- An encoder that takes no new frame rate while it runs.
abbrev fixed_rate : Encoder
fixed_rate = record {
  is_mjpeg = false;
  over_usb = false;
  reconfigure = λ cur c. c.fps == cur.fps;
  initialize = λ c. true;
}

abbrev running : Tuning
running = record {
  config = record { fps = 60; jpeg_quality = 80; bitrate_kbps = 10000; vbv_kbit = 2000 };
  ceilings = record { ceil_kbps = 20000; ceil_quality = 80; fps_cap = 60 };
  cpu_fps = 120;
  fps = 60;
  min_interval_us = 16666;
  auto_tune = true;
}

abbrev lowered : Tuning
lowered = record (set_cap 30 running) { fps = 30; min_interval_us = 33333 }

capped : IsCapped (set_cap 30 running).ceilings
capped = record { quality = omega arith; fps_low = omega arith; fps_high = omega arith }

retune_encoder-forced_example :
    (((fixed_rate.is_mjpeg ≡ true)
        × (10 ≤ lowered.config.jpeg_quality)
        × (lowered.config.jpeg_quality ≤ 80))
      ⊎ ((fixed_rate.is_mjpeg ≡ false)
          × (min 20000 1000 ≤ lowered.config.bitrate_kbps)
          × (lowered.config.bitrate_kbps ≤ 20000)))
    × ((lowered ≡ set_cap 30 running)
        ⊎ ((1 ≤ lowered.fps)
            × (lowered.fps ≤ 30)
            × (lowered.min_interval_us ≡ 1000000 / lowered.fps)))
unfolding link_kbps wished_fps wished_config is_minor stays changed_config retune_encoder vbv_kbit
retune_encoder-forced_example =
    retune_encoder-forced fixed_rate half_share (set_cap 30 running) capped (omega arith) lowered
      refl

paced : IsPaced running
paced = record {
  capped = record { quality = omega arith; fps_low = omega arith; fps_high = omega arith };
  cpu = omega arith;
  slow = omega arith;
  quick = omega arith;
}

-- A worker that sent its frame 1000 at ten seconds.
abbrev sender : Worker ℕ
sender = record {
  tuning = running;
  frame_number = 1001;
  last_sent = secs 10;
  last_idr = secs 10;
  force_keyframe = false;
  last_frame = none;
  last_frame_unsent = false;
  refine_left = 0;
  encoded = 1;
  tick_frames = 0;
  next_tune = secs 100;
  frame_high_water = 1000;
}

abbrev idle_round : ℕ → Round ℕ
idle_round now = record {
  now = now;
  captured = none;
  is_capturing = true;
  asked = false;
  new_ceilings = none;
  share = half_share;
  can_hold = none;
  packets = λ f. record { bytes = f ∷ []; is_keyframe = false } ∷ [];
  work = 4000000;
}

-- Frame 7 is captured 5 ms after the last was sent.
abbrev busy_round : Round ℕ
busy_round = record (idle_round (secs 10 + 5000000)) { captured = some 7 }

worker_rounds-Spaced_example :
    Spaced 1001
      (secs 10)
      (sends (worker_rounds fixed_rate sender (busy_round ∷ idle_round (secs 12) ∷ [])).1)
worker_rounds-Spaced_example =
    worker_rounds-Spaced fixed_rate sender (busy_round ∷ idle_round (secs 12) ∷ []) paced
      (tt, (tt, tt))

worker_rounds-captured_example :
    Encodes 7
      (worker_rounds fixed_rate sender
        (busy_round ∷ (idle_round (secs 11) ∷ []) ++ idle_round (secs 12) ∷ [])).1
unfolding worker_round take_settings
worker_rounds-captured_example =
    worker_rounds-captured fixed_rate sender 7 busy_round (idle_round (secs 11) ∷ [])
      (idle_round (secs 12))
      (next_frame fixed_rate busy_round (tick fixed_rate busy_round sender) (some 7)).0
      (next_frame fixed_rate busy_round (tick fixed_rate busy_round sender) (some 7)).1 paced tt
      refl refl ((refl, refl, refl), tt) (refl, refl, refl) (omega arith, omega arith)
