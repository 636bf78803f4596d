-- ===== src/Host/Mjpeg/Pixels.antt =====
-- host/src/encoder/encoder.cpp: the pixels that the JPEG writer gets.
use immersive.Base.{
  ℕ, zero, suc, ◌+◌, ◌*◌, ◌-◌, ◌<◌, ◌≡◌, ◌∙◌, refl, ap, List, [], ◌∷◌, ◌++◌, arith, get_or, length,
}
use native.Mathlib.Nat.{suc-mul}
use immersive.Host.Mjpeg.{rgb_row, rgb_rows, to_rgb}

get_or-append : (xs ys : List ℕ) (i : ℕ) → i < length xs → get_or (xs ++ ys) i 0 ≡ get_or xs i 0
get_or-append [] ys i h = absurd (omega arith)
get_or-append (x ∷ xs) ys zero h = refl
get_or-append (x ∷ xs) ys (suc i) h = get_or-append xs ys i (omega arith)

at_index : (xs : List ℕ) (i j : ℕ) → i ≡ j → get_or xs i 0 ≡ get_or xs j 0
at_index xs i j e = ap (λ k. get_or xs k 0) e

get_or-append_behind :
    (xs ys : List ℕ) (i j : ℕ) → i ≡ length xs + j → get_or (xs ++ ys) i 0 ≡ get_or ys j 0
get_or-append_behind [] ys i j e = at_index ys i j (omega arith)
get_or-append_behind (x ∷ xs) ys zero j e = absurd (omega arith)
get_or-append_behind (x ∷ xs) ys (suc i) j e = get_or-append_behind xs ys i j (omega arith)

module _ (bgra : List ℕ) where
  length-rgb_row : (at left : ℕ) → length (rgb_row bgra at left) ≡ left * 3
  unfolding rgb_row
  length-rgb_row at zero = refl
  length-rgb_row at (suc left) = let e = length-rgb_row (at + 4) left in omega arith

  get_or-rgb_row :
      (at left k c : ℕ)
      → k < left
      → c < 3
      → get_or (rgb_row bgra at left) (k * 3 + c) 0 ≡ get_or bgra (at + k * 4 + (2 - c)) 0
  unfolding rgb_row
  get_or-rgb_row at zero k c hk hc = absurd (omega arith)
  get_or-rgb_row at (suc left) zero zero hk hc = at_index bgra _ _ (omega arith)
  get_or-rgb_row at (suc left) zero (suc zero) hk hc = at_index bgra _ _ (omega arith)
  get_or-rgb_row at (suc left) zero (suc (suc zero)) hk hc = at_index bgra _ _ (omega arith)
  get_or-rgb_row at (suc left) zero (suc (suc (suc c))) hk hc = absurd (omega arith)
  get_or-rgb_row at (suc left) (suc k) c hk hc =
      at_index (rgb_row bgra at (suc left)) (suc k * 3 + c) (suc (suc (suc (k * 3 + c))))
        (omega arith)
      ∙ (get_or-rgb_row (at + 4) left k c (omega arith) hc
          ∙ at_index bgra (at + 4 + k * 4 + (2 - c)) (at + suc k * 4 + (2 - c)) (omega arith))

  get_or-rgb_rows :
      (pitch width at left x y c : ℕ)
      → x < width
      → y < left
      → c < 3
      → get_or (rgb_rows bgra pitch width at left) ((y * width + x) * 3 + c) 0
        ≡ get_or bgra (at + y * pitch + x * 4 + (2 - c)) 0
  unfolding rgb_rows
  get_or-rgb_rows pitch width at zero x y c hx hy hc = absurd (omega arith)
  get_or-rgb_rows pitch width at (suc left) x zero c hx hy hc =
      let e = length-rgb_row at width in
      let rest = rgb_rows bgra pitch width (at + pitch) left in
      at_index (rgb_row bgra at width ++ rest) ((0 * width + x) * 3 + c) (x * 3 + c) (omega arith)
      ∙ (get_or-append (rgb_row bgra at width) rest (x * 3 + c) (omega arith)
          ∙ (get_or-rgb_row at width x c hx hc
              ∙ at_index bgra (at + x * 4 + (2 - c)) (at + 0 * pitch + x * 4 + (2 - c))
                  (omega arith)))
  get_or-rgb_rows pitch width at (suc left) x (suc y) c hx hy hc =
      let e = length-rgb_row at width in
      let w = suc-mul y width in
      let p = suc-mul y pitch in
      get_or-append_behind (rgb_row bgra at width) (rgb_rows bgra pitch width (at + pitch) left)
        ((suc y * width + x) * 3 + c) ((y * width + x) * 3 + c) (omega arith)
      ∙ (get_or-rgb_rows pitch width (at + pitch) left x y c hx (omega arith) hc
          ∙ at_index bgra (at + pitch + y * pitch + x * 4 + (2 - c))
              (at + suc y * pitch + x * 4 + (2 - c)) (omega arith))

-- Channel c of the pixel at (x, y), where the JPEG writer looks for it, in rows without a gap, is
-- the channel 2 - c of the captured pixel, in rows that are `pitch` bytes apart: red, green and blue
-- change places, and the alpha channel and the gaps are left out.
pub get_or-to_rgb :
    (bgra : List ℕ) (width height pitch x y c : ℕ)
    → x < width
    → y < height
    → c < 3
    → get_or (to_rgb bgra width height pitch) ((y * width + x) * 3 + c) 0
      ≡ get_or bgra (y * pitch + x * 4 + (2 - c)) 0
unfolding to_rgb
get_or-to_rgb bgra width height pitch x y c hx hy hc =
    get_or-rgb_rows bgra pitch width 0 height x y c hx hy hc
    ∙ at_index bgra (0 + y * pitch + x * 4 + (2 - c)) (y * pitch + x * 4 + (2 - c)) (omega arith)
