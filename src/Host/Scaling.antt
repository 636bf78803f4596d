-- ===== src/Host/Scaling.antt =====
-- host/src/main.cpp: scale_bgra_bilinear, on images that are lists of bytes.
pub mod Bounds
use immersive.Base.{
  ℕ, zero, suc, ◌+◌, ◌-◌, ◌*◌, ◌/◌, ◌%◌, ◌^◌, Bool, ◌||◌, List, [], ◌∷◌, ◌++◌, ltb, ◌==◌,
  if◌then◌else◌, get_or, u32, u8,
}

-- How far the source moves for one pixel of the destination, in 16.16 fixed point.
pub step : (source dest : ℕ) → ℕ
step source dest = (source - 1) * 65536 / (if ltb 1 dest then dest - 1 else 1)

-- The source pixel in front of a destination pixel, the one behind it, and how far it is from the
-- first.
pub record Sample : Type 0 where
  pub first : ℕ
  pub second : ℕ
  pub fraction : ℕ

pub sample : (source dest k : ℕ) → Sample
sample source dest k =
    let at = k * step source dest in
    let first = u32 (at / 65536) in
    record {
      first = first;
      second = if ltb (first + 1) source then first + 1 else first;
      fraction = u32 (at % 65536);
    }

pub blend : (fraction a b : ℕ) → ℕ
blend fraction a b = u32 (a * (65536 - fraction) + b * fraction) / 65536

-- Where a channel of a source pixel stands.
pub offset : (spitch x y channel : ℕ) → ℕ
offset spitch x y channel = y * spitch + x * 4 + channel

pub scale_channel : List ℕ → (spitch : ℕ) → (sx sy : Sample) → ℕ → ℕ
scale_channel src spitch sx sy channel =
    let p = λ (x y : ℕ). get_or src (offset spitch x y channel) 0 in
    let top = blend sx.fraction (p sx.first sy.first) (p sx.second sy.first) in
    let bottom = blend sx.fraction (p sx.first sy.second) (p sx.second sy.second) in
    u8 (blend sy.fraction top bottom)

pub scale_pixel : List ℕ → (spitch : ℕ) → (sx sy : Sample) → List ℕ
scale_pixel src spitch sx sy =
    scale_channel src spitch sx sy 0
    ∷ scale_channel src spitch sx sy 1
    ∷ scale_channel src spitch sx sy 2
    ∷ scale_channel src spitch sx sy 3
    ∷ []

-- The pixels of a row from `x` on, `left` of them.
pub scale_row : List ℕ → (sw spitch dw : ℕ) → Sample → (x left : ℕ) → List ℕ
scale_row src sw spitch dw sy x zero = []
scale_row src sw spitch dw sy x (suc left) =
    scale_pixel src spitch (sample sw dw x) sy ++ scale_row src sw spitch dw sy (x + 1) left

pub scale_rows : List ℕ → (sw sh spitch dw dh : ℕ) → (y left : ℕ) → List ℕ
scale_rows src sw sh spitch dw dh y zero = []
scale_rows src sw sh spitch dw dh y (suc left) =
    scale_row src sw spitch dw (sample sh dh y) 0 dw
    ++ scale_rows src sw sh spitch dw dh (y + 1) left

-- The destination, if none of the sizes is 0; else it is left as it is.
pub scale_bgra_bilinear : List ℕ → (sw sh spitch : ℕ) → List ℕ → (dw dh : ℕ) → List ℕ
scale_bgra_bilinear src sw sh spitch dst dw dh =
    if sw == 0 || sh == 0 || dw == 0 || dh == 0 then dst else scale_rows src sw sh spitch dw dh 0 dh
