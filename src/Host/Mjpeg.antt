-- ===== src/Host/Mjpeg.antt =====
-- host/src/encoder/encoder.cpp: MjpegEncoder, on images that are lists of bytes. The JPEG writer of
-- stb_image_write is an argument.
pub mod Pixels
use immersive.Base.{
  ℕ, zero, suc, ◌+◌, ◌*◌, ◌-◌, ◌%◌, ◌^◌, Bool, true, false, not, ◌||◌, List, [], ◌∷◌, ◌++◌, Option,
  none, some, min, max, ◌==◌, if◌then◌else◌, get_or, u32, is_empty,
}

-- What stbi_write_jpg_to_func makes of a width, a height, a quality and the RGB bytes: whether it
-- could, and what it wrote.
pub record Jpeg : Type 0 where
  pub write_jpg : (width height quality : ℕ) → List ℕ → Bool × List ℕ

pub record MjpegEncoder : Type 0 where
  pub initialized : Bool
  pub frame_count : ℕ
  pub quality : ℕ

pub quality_of : ℕ → ℕ
quality_of jpeg_quality = max 10 (min 95 jpeg_quality)

pub initialize : ℕ → MjpegEncoder
initialize jpeg_quality = record {
  initialized = true;
  frame_count = 0;
  quality = quality_of jpeg_quality;
}

pub reconfigure : ℕ → MjpegEncoder → MjpegEncoder
reconfigure jpeg_quality enc = record enc { quality = quality_of jpeg_quality }

-- The pixels of a row from `at` on, `left` of them.
unfoldable pub rgb_row : List ℕ → (at left : ℕ) → List ℕ
rgb_row bgra at zero = []
rgb_row bgra at (suc left) =
    get_or bgra (at + 2) 0 ∷ get_or bgra (at + 1) 0 ∷ get_or bgra at 0 ∷ rgb_row bgra (at + 4) left

unfoldable pub rgb_rows : List ℕ → (pitch width at left : ℕ) → List ℕ
rgb_rows bgra pitch width at zero = []
rgb_rows bgra pitch width at (suc left) =
    rgb_row bgra at width ++ rgb_rows bgra pitch width (at + pitch) left

unfoldable pub to_rgb : List ℕ → (width height pitch : ℕ) → List ℕ
to_rgb bgra width height pitch = rgb_rows bgra pitch width 0 height

-- The packet's bytes, if there is one. Every packet is a keyframe.
pub encode :
    Jpeg
    → MjpegEncoder
    → (bgra : Option (List ℕ)) → (width height pitch : ℕ) → MjpegEncoder × Option (List ℕ)
encode jpeg enc none width height pitch = (enc, none)
encode jpeg enc (some bgra) width height pitch =
    let (ok, bytes) = jpeg.write_jpg width height enc.quality (to_rgb bgra width height pitch) in
    if not enc.initialized || width == 0 || height == 0
    then (enc, none)
    else if not ok || is_empty bytes
    then (enc, none)
    else (record enc { frame_count = u32 (enc.frame_count + 1) }, some bytes)
