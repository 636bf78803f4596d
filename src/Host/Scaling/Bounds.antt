-- ===== src/Host/Scaling/Bounds.antt =====
-- host/src/main.cpp: scale_bgra_bilinear stays inside both images.
use immersive.Base.{
  ℕ, zero, suc, ◌+◌, ◌-◌, ◌*◌, ◌/◌, ◌^◌, ◌≤◌, ◌<◌, ◌≡◌, ap, ◌∙◌, true, false, ◌||◌, List, [], ◌∷◌,
  arith, ltb, ◌==◌, length, length-append, get_or, All, All-append,
}
use immersive.Host.Scaling.{
  step, sample, blend, offset, scale_channel, scale_pixel, scale_row, scale_rows,
  scale_bgra_bilinear,
}

mul_mono : (x y z : ℕ) → x ≤ y → x * z ≤ y * z
mul_mono x y z h = grind arith

mul-div : (k d n : ℕ) → 0 < d → k ≤ d → k * (n / d) ≤ n
mul-div k d n pos h =
    let whole : d * (n / d) ≤ n = grind arith in omega (arith, mul_mono k d (n / d) h, whole)

-- The last step ends in front of the end of the source.
step-mul : (source dest k : ℕ) → k < dest → k * step source dest ≤ (source - 1) * 65536
unfolding step
step-mul source dest zero lt = grind arith
step-mul source dest (suc k) lt =
    let many : ltb 1 dest ≡ true = ground (arith, lt) in
    rw many (mul-div (suc k) (dest - 1) ((source - 1) * 65536) (omega arith) (omega arith))

-- Both pixels that a sample names are in the source, and its fraction is one.
sample-lt :
    (source dest k : ℕ)
    → 0 < source
    → source < 2 ^ 32
    → k < dest
    → ((sample source dest k).first < source)
      × ((sample source dest k).second < source)
      × ((sample source dest k).fraction < 65536)
unfolding sample
sample-lt source dest k pos small lt = ground (arith, step-mul source dest k lt)

weigh-eq : (f c : ℕ) → f ≤ 65536 → c * (65536 - f) + c * f ≡ c * 65536
weigh-eq f c h =
    let parts : c * (65536 - f) + c * f ≡ c * (65536 - f + f) = grind arith in
    let whole : 65536 - f + f ≡ 65536 = omega arith in parts ∙ ap (λ (n : ℕ). c * n) whole

blend-bounds :
    (f a b lo hi : ℕ)
    → f < 65536
    → lo ≤ a
    → a ≤ hi
    → lo ≤ b
    → b ≤ hi
    → hi < 256
    → (lo ≤ blend f a b) × (blend f a b ≤ hi)
unfolding blend
blend-bounds f a b lo hi lt la ah lb bh small = omega (
  arith,
  mul_mono lo a (65536 - f) la,
  mul_mono a hi (65536 - f) ah,
  mul_mono lo b f lb,
  mul_mono b hi f bh,
  weigh-eq f lo (omega arith),
  weigh-eq f hi (omega arith),
)

get_or-All : (P : ℕ → Type 0) (xs : List ℕ) (i : ℕ) → All P xs → i < length xs → P (get_or xs i 0)
get_or-All P [] i h lt = absurd (omega arith)
get_or-All P (x ∷ xs) zero h lt = h.0
get_or-All P (x ∷ xs) (suc i) h lt = get_or-All P xs i h.1 (omega arith)

abbrev pub Within : (lo hi : ℕ) → ℕ → Type 0
Within lo hi b = (lo ≤ b) × (b ≤ hi)

module _ (src : List ℕ) (sw sh spitch dw dh lo hi : ℕ) (width : (0 < sw) × (sw < 2 ^ 32))
    (height : (0 < sh) × (sh < 2 ^ 32)) (pitch : sw * 4 ≤ spitch) (whole : sh * spitch ≤ length src)
    (within : All (Within lo hi) src) (small : hi < 256) where
  -- Every byte that is read is one of the source.
  read-Within :
      (x y channel : ℕ)
      → x < sw
      → y < sh
      → channel < 4
      → Within lo hi (get_or src (offset spitch x y channel) 0)
  unfolding offset
  read-Within x y channel xlt ylt clt =
      let row : y * spitch + spitch ≤ sh * spitch = grind arith in
      get_or-All (Within lo hi) src (y * spitch + x * 4 + channel) within (omega arith)

  scale_channel-Within :
      (x y channel : ℕ)
      → x < dw
      → y < dh
      → channel < 4
      → Within lo hi (scale_channel src spitch (sample sw dw x) (sample sh dh y) channel)
  unfolding scale_channel
  scale_channel-Within x y channel xlt ylt clt =
      let sx = sample sw dw x in
      let sy = sample sh dh y in
      let xs = sample-lt sw dw x width.0 width.1 xlt in
      let ys = sample-lt sh dh y height.0 height.1 ylt in
      let row = λ (at : ℕ) (inside : at < sh).
        let left = read-Within sx.first at channel xs.0 inside clt in
        let right = read-Within sx.second at channel xs.1 inside clt in
        blend-bounds sx.fraction _ _ lo hi xs.2 left.0 left.1 right.0 right.1 small in
      let top = row sy.first ys.0 in
      let bottom = row sy.second ys.1 in
      omega (arith, blend-bounds sy.fraction _ _ lo hi ys.2 top.0 top.1 bottom.0 bottom.1 small)

  scale_row-Within :
      (x left y : ℕ)
      → x + left ≤ dw
      → y < dh
      → let row = scale_row src sw spitch dw (sample sh dh y) x left in
        All (Within lo hi) row × (length row ≡ left * 4)
  unfolding scale_row scale_pixel
  scale_row-Within x zero y fits ylt = (tt, omega arith)
  scale_row-Within x (suc left) y fits ylt =
      let channel = λ (c : ℕ) (h : c < 4). scale_channel-Within x y c (omega arith) ylt h in
      let rest = scale_row-Within (x + 1) left y (omega arith) ylt in
      (
        (
          channel 0 (omega arith),
          (channel 1 (omega arith), (channel 2 (omega arith), (channel 3 (omega arith), rest.0))),
        ),
        omega (arith, rest.1),
      )

  scale_rows-Within :
      (y left : ℕ)
      → y + left ≤ dh
      → let rows = scale_rows src sw sh spitch dw dh y left in
        All (Within lo hi) rows × (length rows ≡ left * (dw * 4))
  unfolding scale_rows
  scale_rows-Within y zero fits = (tt, omega arith)
  scale_rows-Within y (suc left) fits =
      let row = scale_row-Within 0 dw y (omega arith) (omega arith) in
      let rest = scale_rows-Within (y + 1) left (omega arith) in
      let here = scale_row src sw spitch dw (sample sh dh y) 0 dw in
      (
        All-append (Within lo hi) here _ row.0 rest.0,
        omega (
          arith,
          length-append here (scale_rows src sw sh spitch dw dh (y + 1) left),
          row.1,
          rest.1,
        ),
      )

-- A source image whose rows do not overlap and are all there is scaled to 4 bytes for each pixel of
-- any size, each no less than the least byte of the source and no more than the greatest. No
-- 32-bit product overflows, and no byte from outside the source, which would count as 0, is
-- mixed in.
pub scale_bgra_bilinear-Within :
    (src : List ℕ) (sw sh spitch : ℕ) (dst : List ℕ) (dw dh lo hi : ℕ)
    → (0 < sw) × (sw < 2 ^ 32)
    → (0 < sh) × (sh < 2 ^ 32)
    → 0 < dw
    → 0 < dh
    → sw * 4 ≤ spitch
    → sh * spitch ≤ length src
    → All (Within lo hi) src
    → hi < 256
    → All (Within lo hi) (scale_bgra_bilinear src sw sh spitch dst dw dh)
      × (length (scale_bgra_bilinear src sw sh spitch dst dw dh) ≡ dh * (dw * 4))
unfolding scale_bgra_bilinear
scale_bgra_bilinear-Within src sw sh spitch dst dw dh lo hi width height wide high pitch whole
      within small =
    let scales : (sw == 0 || sh == 0 || dw == 0 || dh == 0) ≡ false =
      ground (arith, width, height, wide, high) in
    rw scales (
      scale_rows-Within src sw sh spitch dw dh lo hi width height pitch whole within small 0 dh
        (omega arith))
