-- ===== src/Host/Input/Scale.antt =====
-- host/src/main.cpp: the mouse coordinates of a downscaled stream. The C++ double is a parameter.
use immersive.Base.{
  ℕ, ◌-◌, ◌≡◌, ◌≤◌, ◌<◌, refl, Bool, false, List, none, some, if◌then◌else◌, lookup, arith,
}
use immersive.Protocol.Messages.{InputMouse}

-- The finite doubles from 0 up: a 16-bit number is one exactly, and a cast cuts off the fraction.
pub record Double64 : Type 1 where
  pub Double : Type 0
  pub of_nat : ℕ → Double
  pub mul : Double → Double → Double
  pub lt : Double → Double → Bool
  pub trunc : Double → ℕ
  pub trunc-of_nat : (n : ℕ) → trunc (of_nat n) ≡ n
  pub trunc-le : (n : ℕ) (x : Double) → lt (of_nat n) x ≡ false → trunc x ≤ n

module _ (d : Double64) where
  open d use {Double, of_nat, mul, lt, trunc}

  pub record InputScale : Type 0 where
    pub sx : Double
    pub sy : Double
    pub native_w : ℕ
    pub native_h : ℕ

  -- static_cast<uint16_t>(std::min<double>(x * s, native - 1)), for a monitor that has pixels
  pub scale_coordinate : ℕ → Double → ℕ → ℕ
  scale_coordinate x s native =
      let scaled = mul (of_nat x) s in
      let limit = of_nat (native - 1) in trunc (if lt limit scaled then limit else scaled)

  -- The mouse handler's scaled_input.
  pub scale_mouse : List (ℕ × InputScale) → InputMouse → InputMouse
  unfolding scale_coordinate
  scale_mouse input_scale m = elim (lookup m.monitor_id input_scale) [
    | none ↦ m
    | some sc ↦ record m {
      x = scale_coordinate m.x sc.sx sc.native_w;
      y = scale_coordinate m.y sc.sy sc.native_h;
    }
  ]

  scale_coordinate-lt :
      (x : ℕ) (s : Double) (native : ℕ) → 0 < native → scale_coordinate x s native < native
  unfolding scale_coordinate
  scale_coordinate-lt x s native h =
      let limit : Double = of_nat (native - 1) in
      let cut : trunc limit ≡ native - 1 = d.trunc-of_nat (native - 1) in
      ground (arith, cut, d.trunc-le (native - 1) (mul (of_nat x) s))

  -- On a monitor that has a scale and pixels, the injected position is one of the monitor's pixels,
  -- however far the client's coordinates overshoot; the buttons and the scroll are the client's.
  pub scale_mouse-lt :
      (input_scale : List (ℕ × InputScale)) (m : InputMouse) (sc : InputScale)
      → lookup m.monitor_id input_scale ≡ some sc
      → 0 < sc.native_w
      → 0 < sc.native_h
      → let m' = scale_mouse input_scale m in
        (m'.x < sc.native_w)
        × (m'.y < sc.native_h)
        × (m'.buttons ≡ m.buttons)
        × (m'.scroll_delta ≡ m.scroll_delta)
        × (m'.scroll_delta_h ≡ m.scroll_delta_h)
        × (m'.monitor_id ≡ m.monitor_id)
  unfolding scale_mouse
  scale_mouse-lt input_scale m sc found w h =
      rw (scale_mouse, found)
        (
          scale_coordinate-lt m.x sc.sx sc.native_w w,
          scale_coordinate-lt m.y sc.sy sc.native_h h,
          refl,
          refl,
          refl,
          refl,
        )
