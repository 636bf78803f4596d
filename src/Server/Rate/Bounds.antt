-- ===== src/Server/Rate/Bounds.antt =====
-- host/src/network/server.cpp: the range of the bitrate share that link_rate_scale reports.
use immersive.Base.{ℕ, ◌≡◌, true, if◌then◌else◌, arith, Bool-cases, inl, inr, ◌||◌}
use immersive.Server.Rate.{
  Float32, RateControl, count_sent, new_window, is_lossy, is_queued, lowered, raised, decide_rate,
  rate_on_sent,
}

module _ (fl : Float32) where
  open fl use {
    Float, lt, le, mul, add, half, one, k_min_rate_scale, cut_factor, raise_factor, raise_step,
  }

  -- From 5 % of the configured bitrate to all of it.
  abbrev pub InRange : Float → Type 0
  InRange x = (le k_min_rate_scale x ≡ true) × (le x one ≡ true)

  lowered-InRange : (x : Float) → InRange x → InRange (lowered fl x)
  lowered-InRange x h =
      let cut : le (mul x cut_factor) x ≡ true = fl.mul-cut_factor x h.0 h.1 in
      let low : le k_min_rate_scale k_min_rate_scale ≡ true = (fl.le-self _ _ h.0).0 in
      elim (Bool-cases (lt k_min_rate_scale (mul x cut_factor))) [
        | inl above ↦ rw above (fl.lt-le _ _ above, fl.le_trans _ x _ cut h.1)
        | inr below ↦ rw below (low, fl.le_trans _ x _ h.0 h.1)
      ]

  raised-InRange : (x : Float) → InRange x → InRange (raised fl x)
  raised-InRange x h =
      let y : Float = add (mul x raise_factor) raise_step in
      let up : le x y ≡ true = fl.mul-raise_factor x h.0 h.1 in
      let top : le one one ≡ true = (fl.le-self _ _ h.1).1 in
      elim (Bool-cases (lt y one)) [
        | inl below ↦ rw below (fl.le_trans _ x _ h.0 up, fl.lt-le _ _ below)
        | inr above ↦ rw above (fl.le_trans _ x _ h.0 h.1, top)
      ]

  decide_rate-InRange :
      (r : RateControl Float) (now : ℕ) → InRange r.scale → InRange (decide_rate fl r now).scale
  unfolding decide_rate
  decide_rate-InRange r now h = ground (arith, lowered-InRange r.scale h, raised-InRange r.scale h)

  -- However the window went, the share of the bitrate stays within its bounds, 5 % to 100 %, when a
  -- frame is sent.
  pub rate_on_sent-InRange :
      (r : RateControl Float) (now : ℕ) → InRange r.scale → InRange (rate_on_sent fl r now).scale
  unfolding rate_on_sent count_sent new_window
  rate_on_sent-InRange r now h = ground (arith, decide_rate-InRange (count_sent r now) now)

  lowered-le : (x : Float) → InRange x → le (lowered fl x) x ≡ true
  lowered-le x h = elim (Bool-cases (lt k_min_rate_scale (mul x cut_factor))) [
    | inl above ↦ rw above (fl.mul-cut_factor x h.0 h.1)
    | inr below ↦ rw below h.0
  ]

  le-raised : (x : Float) → InRange x → le x (raised fl x) ≡ true
  le-raised x h = elim (Bool-cases (lt (add (mul x raise_factor) raise_step) one)) [
    | inl below ↦ rw below (fl.mul-raise_factor x h.0 h.1)
    | inr above ↦ rw above h.1
  ]

  -- A window with lost frames or a queue never raises the share, and a clean one never lowers it.
  pub decide_rate-direction :
      (r : RateControl Float) (now : ℕ)
      → InRange r.scale
      → (if is_lossy r || is_queued r
          then le (decide_rate fl r now).scale r.scale
          else le r.scale (decide_rate fl r now).scale)
        ≡ true
  unfolding decide_rate
  decide_rate-direction r now h =
      ground
        (arith, lowered-le r.scale h, le-raised r.scale h, fl.le-self k_min_rate_scale r.scale h.0)
