-- ===== src/Server/Rate.antt =====
-- host/src/network/server.cpp: ClientState::RateControl and rate_on_sent. The C++ float is a
-- parameter, of which only what IEEE 754 promises of the values at hand is used.
pub mod Bounds
pub mod Windows
use immersive.Base.{
  ℕ, ◌+◌, ◌-◌, ◌*◌, ◌≡◌, Bool, true, false, not, ◌&&◌, ◌||◌, ltb, leb, ◌==◌, if◌then◌else◌, u32, ms,
  secs,
}

-- Single-precision numbers: the comparisons, the two operations and the constants that the rate
-- control uses. A comparison with NaN is false, hence `le-self`.
pub record Float32 : Type 1 where
  pub Float : Type 0
  pub lt : Float → Float → Bool
  pub le : Float → Float → Bool
  pub mul : Float → Float → Float
  pub add : Float → Float → Float
  pub half : Float
  pub one : Float
  pub k_min_rate_scale : Float
  pub cut_factor : Float
  pub raise_factor : Float
  pub raise_step : Float
  pub lt-le : (a b : Float) → lt a b ≡ true → le a b ≡ true
  pub le-self : (a b : Float) → le a b ≡ true → (le a a ≡ true) × (le b b ≡ true)
  pub le_trans : (a b c : Float) → le a b ≡ true → le b c ≡ true → le a c ≡ true
  pub min-half : le k_min_rate_scale half ≡ true
  pub half-one : le half one ≡ true
  pub mul-cut_factor :
      (x : Float) → le k_min_rate_scale x ≡ true → le x one ≡ true → le (mul x cut_factor) x ≡ true
  pub mul-raise_factor :
      (x : Float)
      → le k_min_rate_scale x ≡ true
      → le x one ≡ true
      → le x (add (mul x raise_factor) raise_step) ≡ true

pub record RateControl (S : Type 0) : Type 0 where
  pub scale : S
  pub sent : ℕ
  pub lost : ℕ
  pub worst_delay : ℕ
  pub stalled : Bool
  pub window_start : ℕ
  pub last_cut : ℕ
  pub last_ack : ℕ

-- In milliseconds, as worst_delay is.
abbrev pub k_max_frame_delay : ℕ
k_max_frame_delay = 250

-- A window's verdicts: more than one frame in twenty lost (the product is a uint32_t), or a queue.
pub is_lossy : {S : Type 0} → RateControl S → Bool
is_lossy r = leb 2 r.lost && ltb r.sent (u32 (r.lost * 20))

pub is_queued : {S : Type 0} → RateControl S → Bool
is_queued r = r.stalled || ltb k_max_frame_delay r.worst_delay

-- The frame is counted, and a link that went quiet is noted.
pub count_sent : {S : Type 0} → RateControl S → ℕ → RateControl S
count_sent r now =
    let r1 = if r.window_start == 0 then record r { window_start = now; last_cut = now } else r in
    let r2 = record r1 { sent = u32 (r1.sent + 1) } in
    if not (r2.last_ack == 0) && ltb (ms 1500) (now - r2.last_ack)
    then record r2 { stalled = true }
    else r2

pub new_window : {S : Type 0} → RateControl S → ℕ → RateControl S
new_window r now = record r {
  window_start = now;
  sent = 0;
  lost = 0;
  worst_delay = 0;
  stalled = false;
}

module _ (fl : Float32) where
  open fl use {Float, lt, mul, add, one, k_min_rate_scale, cut_factor, raise_factor, raise_step}

  -- std::max and std::min.
  abbrev pub max_float : Float → Float → Float
  max_float a b = if lt a b then b else a

  abbrev pub min_float : Float → Float → Float
  min_float a b = if lt b a then b else a

  abbrev pub lowered : Float → Float
  lowered x = max_float k_min_rate_scale (mul x cut_factor)

  abbrev pub raised : Float → Float
  raised x = min_float one (add (mul x raise_factor) raise_step)

  -- The decision at the end of a window.
  pub decide_rate : RateControl Float → ℕ → RateControl Float
  decide_rate r now =
      if (is_lossy r || is_queued r) && leb (secs 1) (now - r.last_cut)
      then record r { scale = lowered r.scale; last_cut = now }
      else if not (is_lossy r)
          && not (is_queued r)
          && leb 5 r.sent
          && lt r.scale one
          && leb (secs 4) (now - r.last_cut)
      then record r { scale = raised r.scale }
      else r

  pub rate_on_sent : RateControl Float → ℕ → RateControl Float
  rate_on_sent r now =
      let r' = count_sent r now in
      if ltb (now - r'.window_start) (secs 1) then r' else new_window (decide_rate r' now) now

-- A new connection: half the configured bitrate, nothing counted.
abbrev pub initial_rate : (fl : Float32) → RateControl fl.Float
initial_rate fl = record {
  scale = fl.half;
  sent = 0;
  lost = 0;
  worst_delay = 0;
  stalled = false;
  window_start = 0;
  last_cut = 0;
  last_ack = 0;
}
