-- ===== src/Server/Rate/Windows.antt =====
-- host/src/network/server.cpp: how often rate_on_sent changes the bitrate share.
use immersive.Base.{
  ℕ, ◌+◌, ◌-◌, ◌*◌, ◌≤◌, ◌<◌, ◌≡◌, ◌≢◌, Bool, true, false, if◌then◌else◌, List, [], ◌∷◌, arith,
  ◌==◌, ltb, secs, not, ◌/◌, ◌⊎◌, zero, suc, inl, inr, Bool-cases,
}
use immersive.Server.Rate.{Float32, RateControl, count_sent, new_window, rate_on_sent}

-- Whether a frame sent now ends the window.
abbrev pub closes : {S : Type 0} → RateControl S → ℕ → Bool
closes r now = not (ltb (now - (count_sent r now).window_start) (secs 1))

module _ (fl : Float32) where
  open fl use {Float}

  -- The rate control after frames sent at the given times, and how many windows they ended.
  pub run_sent : RateControl Float → List ℕ → RateControl Float
  run_sent r [] = r
  run_sent r (now ∷ times) = run_sent (rate_on_sent fl r now) times

  pub closings : RateControl Float → List ℕ → ℕ
  closings r [] = 0
  closings r (now ∷ times) =
      (if closes r now then 1 else 0) + closings (rate_on_sent fl r now) times

  abbrev pub InOrder : ℕ → ℕ → List ℕ → Type 0
  InOrder start end [] = start ≤ end
  InOrder start end (now ∷ times) = (start ≤ now) × InOrder now end times

  -- Inside a window the share stays as it is.
  pub rate_on_sent-inside :
      (r : RateControl Float) (now : ℕ)
      → closes r now ≡ false
      → (rate_on_sent fl r now).scale ≡ r.scale
  unfolding rate_on_sent count_sent
  rate_on_sent-inside r now h = ground arith

  window_start-rate_on_sent :
      (r : RateControl Float) (now : ℕ)
      → (rate_on_sent fl r now).window_start
        ≡ (if closes r now then now else if r.window_start == 0 then now else r.window_start)
  unfolding rate_on_sent count_sent new_window
  window_start-rate_on_sent r now = ground arith

  closes-le :
      (r : RateControl Float) (now : ℕ)
      → closes r now ≡ true
      → (r.window_start ≢ 0) × (r.window_start + secs 1 ≤ now)
  unfolding count_sent
  closes-le r now h = ground arith

  -- A window takes a second.
  pub closings-le :
      (r : RateControl Float) (start end : ℕ) (times : List ℕ)
      → 0 < start
      → r.window_start ≤ start
      → InOrder start end times
      → closings r times * secs 1 + (if r.window_start == 0 then start else r.window_start) ≤ end
  unfolding closings
  closings-le r start end [] pos old h = ground arith
  closings-le r start end (now ∷ times) pos old h = ground (
    arith,
    window_start-rate_on_sent r now,
    closes-le r now,
    closings-le (rate_on_sent fl r now) now end times,
    h.1,
  )

  -- The share differs after at most `n` of the frames.
  pub AtMost : ℕ → RateControl Float → List ℕ → Type 0
  AtMost n r [] = Unit
  AtMost zero r (now ∷ times) =
      ((rate_on_sent fl r now).scale ≡ r.scale) × AtMost zero (rate_on_sent fl r now) times
  AtMost (suc n) r (now ∷ times) =
      (((rate_on_sent fl r now).scale ≡ r.scale) × AtMost (suc n) (rate_on_sent fl r now) times)
      ⊎ AtMost n (rate_on_sent fl r now) times

  closings-AtMost :
      (n : ℕ) (r : RateControl Float) (times : List ℕ) → closings r times ≤ n → AtMost n r times
  unfolding closings AtMost
  closings-AtMost zero r [] h = tt
  closings-AtMost (suc n) r [] h = tt
  closings-AtMost zero r (now ∷ times) h = elim (Bool-cases (closes r now)) [
    | inl over ↦ absurd (ground (arith, over, h))
    | inr inside ↦ (
      rate_on_sent-inside r now inside,
      closings-AtMost zero (rate_on_sent fl r now) times (ground (arith, inside, h)),
    )
  ]
  closings-AtMost (suc n) r (now ∷ times) h = elim (Bool-cases (closes r now)) [
    | inl over ↦ inr (closings-AtMost n (rate_on_sent fl r now) times (ground (arith, over, h)))
    | inr inside ↦ inl (
      rate_on_sent-inside r now inside,
      closings-AtMost (suc n) (rate_on_sent fl r now) times (ground (arith, inside, h)),
    )
  ]

  -- However many frames are sent at ordered times from a start, which is not 0, to an end, the share
  -- of the bitrate changes at most once for each whole second from the beginning of the window, or
  -- from the start if no window has begun, to the end.
  pub rate_on_sent-AtMost :
      (r : RateControl Float) (start end : ℕ) (times : List ℕ)
      → 0 < start
      → r.window_start ≤ start
      → InOrder start end times
      → AtMost ((end - (if r.window_start == 0 then start else r.window_start)) / secs 1) r times
  rate_on_sent-AtMost r start end times pos old h =
      closings-AtMost _ r times (omega (arith, closings-le r start end times pos old h))
