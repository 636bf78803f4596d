-- ===== src/Host/Worker/Tuning/Paced.antt =====
-- host/src/main.cpp: retune paces the frames of a stream.
use immersive.Base.{ℕ, ◌/◌, ◌≤◌, ◌≡◌, Bool, some, arith}
use native.Mathlib.Nat.{le-div_iff_mul-le, div-le_self}
use immersive.Host.Worker.Tuning.{Share, Encoder, Tuning, wished_fps, retune_encoder}
use immersive.Host.Worker.Tuning.Forced.{IsCapped, wished_fps-bounds}

-- From one frame per second to 120.
pub record IsPaced (t : Tuning) : Type 0 where
  pub capped : IsCapped t.ceilings
  pub cpu : 1 ≤ t.cpu_fps
  pub slow : 8333 ≤ t.min_interval_us
  pub quick : t.min_interval_us ≤ 1000000

period : (f : ℕ) → 1 ≤ f → f ≤ 120 → 8333 ≤ 1000000 / f
period f low high =
    (le-div_iff_mul-le {k = f} {x = 8333} {y = 1000000} (omega arith)).1 (omega arith)

module _ (enc : Encoder) (share : Share) where
  pub retune_encoder-IsPaced :
      (forced : Bool) (t t' : Tuning)
      → IsPaced t
      → retune_encoder enc share forced t ≡ some t'
      → IsPaced t'
  unfolding retune_encoder
  retune_encoder-IsPaced forced t t' paced e =
      let f = wished_fps enc share t in
      let bounds = wished_fps-bounds enc share t paced.capped paced.cpu in
      ground (arith, e, paced, bounds, period f bounds.0, div-le_self 1000000 f)
