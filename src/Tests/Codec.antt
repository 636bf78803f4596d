-- ===== src/Tests/Codec.antt =====
-- The choice of a codec, and the pixels that an encoder gets, on concrete inputs.
use immersive.Base.{
  List, [], ◌∷◌, get_or, ℕ, ◌+◌, ◌-◌, ◌*◌, ◌/◌, ◌≤◌, ◌≡◌, refl, true, false, ltb, arith,
}
use immersive.Host.Mjpeg.{to_rgb, rgb_rows, rgb_row}
use immersive.Host.Mjpeg.Pixels.{get_or-to_rgb}
use native.Mathlib.Nat.{le_trans, mul-le-mul_right, div-mul-le_self, mul_comm}
use immersive.Host.Worker.Codec.{Doubles, Opens, h264, h265, av1, choose_codec}
use immersive.Host.Worker.Codec.Fits.{IsGood, choose_codec-IsGood}

product-le : (n q : ℕ) → q ≤ 16384 / (2 * n) → q * (2 * n) ≤ 16384
product-le n q h = le_trans (mul-le-mul_right (2 * n) h) (div-mul-le_self 16384 (2 * n))

lt_self : (x : ℕ) → ltb x x ≡ false
lt_self x = ground arith

lt_asym : (x y : ℕ) → ltb x y ≡ true → ltb y x ≡ false
lt_asym x y h = ground arith

lt_trans : (x y z : ℕ) → ltb y x ≡ false → ltb z y ≡ false → ltb z x ≡ false
lt_trans x y z h g = ground arith

one-div : (n : ℕ) → ltb (16384 / (2 * n)) 2 ≡ false → n ≤ 4096
one-div n h = let p = product-le n 2 (ground (arith, h)) in omega arith

trunc-product : (n s : ℕ) → ltb (16384 / (2 * n)) s ≡ false → (2 * n * s / 2 + 1) / 2 ≤ 4096
trunc-product n s h =
    let p = product-le n s (ground (arith, h)) in let e = mul_comm (2 * n) s in rw e (omega arith)

-- Numbers counted in halves.
abbrev halves : Doubles
halves = record {
  Double = ℕ;
  of_nat = λ n. 2 * n;
  lt = ltb;
  mul = λ x y. x * y / 2;
  div = λ x y. 2 * x / y;
  add = λ x y. x + y;
  sqrt = λ x. x;
  half = 1;
  trunc = λ x. x / 2;
  lt_self = lt_self;
  lt_asym = lt_asym;
  lt_trans = lt_trans;
  div-one = one-div;
  trunc-mul = trunc-product;
}

-- A host that has an encoder for H.264 only, and a screen of 5120x1440.
abbrev only_h264 : Opens
only_h264 h264 size = true
only_h264 h265 size = false
only_h264 av1 size = false

choose_codec-IsGood_example :
    IsGood halves only_h264
      (record { width = 5120; height = 1440 })
      1
      (choose_codec halves only_h264 (record { width = 5120; height = 1440 }) 1)
choose_codec-IsGood_example =
    choose_codec-IsGood halves only_h264 (record { width = 5120; height = 1440 }) 1

-- Two rows of one pixel, 5 bytes apart.
abbrev picture : List ℕ
picture = 1 ∷ 2 ∷ 3 ∷ 255 ∷ 0 ∷ 4 ∷ 5 ∷ 6 ∷ 255 ∷ []

picture_rgb : to_rgb picture 1 2 5 ≡ 3 ∷ 2 ∷ 1 ∷ 6 ∷ 5 ∷ 4 ∷ []
unfolding to_rgb rgb_rows rgb_row
picture_rgb = refl

get_or-to_rgb_example :
    get_or (to_rgb picture 1 2 5) ((1 * 1 + 0) * 3 + 0) 0
    ≡ get_or picture (1 * 5 + 0 * 4 + (2 - 0)) 0
get_or-to_rgb_example = get_or-to_rgb picture 1 2 5 0 1 0 (omega arith) (omega arith) (omega arith)
