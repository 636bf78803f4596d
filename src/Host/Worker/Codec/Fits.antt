-- ===== src/Host/Worker/Codec/Fits.antt =====
-- host/src/main.cpp: what the chosen codec and its size promise.
use immersive.Base.{
  ℕ, ◌+◌, ◌*◌, ◌/◌, u32, ◌&&◌, ◌||◌, ◌≤◌, ◌≡◌, ◌⊎◌, inl, inr, Bool, true, false, ◌==◌, arith,
  Bool-cases,
}
use immersive.Host.Worker.{Size}
use immersive.Host.Worker.Codec.{
  Doubles, h264, h265, av1, proto_value, Opens, Choice, smaller, h264_scale, fit_side, fit_h264,
  size_for, try_codec, or_h264, try_requested, or_mjpeg, choose_codec,
}

module _ (d : Doubles) where
  open d use {Double, of_nat, lt, mul, div, add, sqrt, half, trunc}

  smaller-le : (a b : Double) → (lt a (smaller d a b) ≡ false) × (lt b (smaller d a b) ≡ false)
  unfolding smaller
  smaller-le a b = elim (Bool-cases (lt b a)) [
    | inl less ↦ rw less (d.lt_asym b a less, d.lt_self b)
    | inr more ↦ rw more (d.lt_self a, more)
  ]

  module _ (size : Size) where
    quotient : ℕ → Double
    quotient n = div (of_nat 4096) (of_nat n)

    -- The scale is at most what each side allows.
    h264_scale-le :
        (lt (quotient size.width) (h264_scale d size) ≡ false)
        × (lt (quotient size.height) (h264_scale d size) ≡ false)
    unfolding h264_scale quotient
    h264_scale-le =
        let mbs = u32 (u32 (size.width + 15) / 16 * (u32 (size.height + 15) / 16)) in
        let root = sqrt (div (of_nat 36864) (of_nat mbs)) in
        let one = smaller d (of_nat 1) (quotient size.width) in
        let two = smaller d one (quotient size.height) in
        let last = (smaller-le two root).0 in
        (
          d.lt_trans (smaller d two root) one (quotient size.width)
              (d.lt_trans (smaller d two root) two one last
                (smaller-le one (quotient size.height)).0)
              (smaller-le (of_nat 1) (quotient size.width)).1,
          d.lt_trans (smaller d two root) two (quotient size.height) last
              (smaller-le one (quotient size.height)).1,
        )

    fit_side-le :
        (n : ℕ)
        → lt (quotient n) (h264_scale d size) ≡ false
        → fit_side d (h264_scale d size) n ≤ 4096
    unfolding fit_side quotient
    fit_side-le n h =
        let m = trunc (add (mul (of_nat n) (h264_scale d size)) half) in
        let short = d.trunc-mul n (h264_scale d size) h in omega arith

    fit_h264-le : ((fit_h264 d size).width ≤ 4096) × ((fit_h264 d size).height ≤ 4096)
    unfolding fit_h264 fit_side quotient
    fit_h264-le = elim (Bool-cases (lt (h264_scale d size) (of_nat 1))) [
      | inl big ↦
          rw big (fit_side-le size.width h264_scale-le.0, fit_side-le size.height h264_scale-le.1)
      | inr small ↦ rw small (
        d.div-one size.width
            (d.lt_trans (of_nat 1) (h264_scale d size) (quotient size.width) small h264_scale-le.0),
        d.div-one size.height (
            d.lt_trans (of_nat 1) (h264_scale d size) (quotient size.height) small h264_scale-le.1),
      )
    ]

module _ (d : Doubles) (opens : Opens) (out : Size) (requested_codec : ℕ) where
  -- Whether the codec that is asked for, other than H.264, opens.
  unfoldable pub opens_wish : Bool
  opens_wish = requested_codec == 1 && opens h265 out || requested_codec == 3 && opens av1 out

  -- The codecs of a request for one that is not MJPEG.
  unfoldable pub is_hardware : Bool
  is_hardware = requested_codec == 0 || requested_codec == 1 || requested_codec == 3

  -- MJPEG at the whole size, when a hardware codec was not asked for or none opened; H.264 at a size
  -- of which no side is longer than 4096 pixels, when a hardware codec was asked for, and it was
  -- H.264 or did not open; else the codec that was asked for, at the whole size.
  unfoldable pub IsGood : Choice → Type 0
  IsGood c =
      (c.actual_codec ≡ 2)
        × (c.size ≡ out)
        × (opens_wish ≡ false)
        × ((is_hardware && opens h264 (fit_h264 d out)) ≡ false)
      ⊎ (c.actual_codec ≡ 0)
        × (is_hardware ≡ true)
        × (opens h264 c.size ≡ true)
        × (opens_wish ≡ false)
        × (c.size.width ≤ 4096)
        × (c.size.height ≤ 4096)
      ⊎ (c.actual_codec ≡ 1) × (c.size ≡ out) × (requested_codec ≡ 1) × (opens h265 out ≡ true)
      ⊎ (c.actual_codec ≡ 3) × (c.size ≡ out) × (requested_codec ≡ 3) × (opens av1 out ≡ true)

  -- Whatever is asked for and whichever encoders open, a codec is chosen: MJPEG at the whole size if
  -- no hardware codec is asked for, or neither the one asked for nor H.264 opens; H.264 if it opens
  -- and it, or another one that does not open, is asked for, with no side longer than 4096 pixels;
  -- else the one asked for, at the whole size.
  pub choose_codec-IsGood : IsGood (choose_codec d opens out requested_codec)
  unfolding IsGood opens_wish is_hardware choose_codec or_mjpeg try_requested or_h264 try_codec
      size_for proto_value
  choose_codec-IsGood = ground (arith, fit_h264-le d out)
