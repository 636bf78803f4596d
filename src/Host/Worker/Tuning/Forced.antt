-- ===== src/Host/Worker/Tuning/Forced.antt =====
-- host/src/main.cpp: what a change of the client's settings makes of the running encoder.
use immersive.Base.{
  ℕ, ◌-◌, ◌/◌, ◌≤◌, ◌≡◌, ◌⊎◌, inl, inr, min, Bool, true, false, some, arith, Option-cases,
}
use immersive.Host.Worker.{Ceilings, vbv_kbit}
use immersive.Host.Worker.Tuning.{
  EncoderConfig, Share, Encoder, Tuning, link_kbps, wished_fps, wished_config, stays,
  changed_config, retune_encoder,
}

-- The ceilings as take_cfg makes them.
pub record IsCapped (c : Ceilings) : Type 0 where
  pub quality : 10 ≤ c.ceil_quality
  pub fps_low : 1 ≤ c.fps_cap
  pub fps_high : c.fps_cap ≤ 120

module _ (enc : Encoder) (share : Share) (t : Tuning) (capped : IsCapped t.ceilings)
    (cpu : 1 ≤ t.cpu_fps) where
  pub wished_fps-bounds :
      (1 ≤ wished_fps enc share t) × (wished_fps enc share t ≤ t.ceilings.fps_cap)
  unfolding wished_fps
  wished_fps-bounds = ground (arith, capped, cpu)

  changed_config-rates :
      (forced : Bool) (c live : EncoderConfig)
      → changed_config enc forced t.config c ≡ some live
      → (live.bitrate_kbps ≡ c.bitrate_kbps)
        × (live.jpeg_quality ≡ c.jpeg_quality)
        × (live.vbv_kbit ≡ c.vbv_kbit)
        × ((live.fps ≡ c.fps) ⊎ (live.fps ≡ t.config.fps))
  unfolding changed_config
  changed_config-rates forced c live e = ground arith

  link_kbps-bounds :
      (min t.ceilings.ceil_kbps 1000 ≤ link_kbps share t.ceilings.ceil_kbps)
      × (link_kbps share t.ceilings.ceil_kbps ≤ t.ceilings.ceil_kbps)
  unfolding link_kbps
  link_kbps-bounds = ground (arith, share.cut-le t.ceilings.ceil_kbps)

  -- A change of the client's settings that stream_worker carries out leaves an encoder that runs
  -- within them: a JPEG quality from 10 to the ceiling, or for the other codecs a bitrate no
  -- higher than the ceiling and no lower than 1 Mbps or a ceiling below it. Frames are paced at
  -- 1 per second or more and no faster than the cap, unless the call left everything as it was.
  pub retune_encoder-forced :
      (t' : Tuning)
      → retune_encoder enc share true t ≡ some t'
      → (((enc.is_mjpeg ≡ true)
            × (10 ≤ t'.config.jpeg_quality)
            × (t'.config.jpeg_quality ≤ t.ceilings.ceil_quality))
          ⊎ ((enc.is_mjpeg ≡ false)
              × (min t.ceilings.ceil_kbps 1000 ≤ t'.config.bitrate_kbps)
              × (t'.config.bitrate_kbps ≤ t.ceilings.ceil_kbps)))
        × ((t' ≡ t)
            ⊎ ((1 ≤ t'.fps)
                × (t'.fps ≤ t.ceilings.fps_cap)
                × (t'.min_interval_us ≡ 1000000 / t'.fps)))
  unfolding retune_encoder wished_config stays
  retune_encoder-forced t' e =
      let f = wished_fps enc share t in
      let c = wished_config enc share t in
      let quality = share.rounded-le (t.ceilings.ceil_quality - 10) in
      elim (Option-cases (changed_config enc true t.config c)) [
        | inl refused ↦ ground (arith, e, refused, capped, quality, link_kbps-bounds)
        | inr (live, changed) ↦ ground (
          arith,
          e,
          changed,
          changed_config-rates true c live changed,
          capped,
          quality,
          link_kbps-bounds,
          wished_fps-bounds,
        )
      ]

-- The client's frame rate cap.
abbrev pub set_cap : ℕ → Tuning → Tuning
set_cap cap t = record t { ceilings = record t.ceilings { fps_cap = cap } }
