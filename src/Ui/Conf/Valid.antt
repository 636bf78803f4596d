-- ===== src/Ui/Conf/Valid.antt =====
-- host/src/ui/ui_common.cpp: the settings that a file can give are within their ranges.
use immersive.Base.{ℕ, ◌≤◌, ◌<◌, ◌≡◌, ◌⊎◌, List, [], ◌∷◌, arith}
use immersive.Ui.Conf.{Settings, Line, load_line, load_lines, load_host_conf, read_lines}

-- One of the four codecs, a JPEG quality that the encoder takes, and no PIN yet or one of six digits.
pub record IsValid (s : Settings) : Type 0 where
  pub codec_known : s.codec < 4
  pub quality_low : 10 ≤ s.jpeg_quality
  pub quality_high : s.jpeg_quality ≤ 95
  pub pin_digits : (s.pin ≡ 0) ⊎ ((100000 ≤ s.pin) × (s.pin ≤ 999999))

load_line-IsValid : (s : Settings) (l : Line) → IsValid s → IsValid (load_line s l)
unfolding load_line
load_line-IsValid s l h = ground arith

load_lines-IsValid : (s : Settings) (ls : List Line) → IsValid s → IsValid (load_lines s ls)
unfolding load_lines
load_lines-IsValid s [] h = h
load_lines-IsValid s (l ∷ ls) h = load_lines-IsValid (load_line s l) ls (load_line-IsValid s l h)

pub load_host_conf-IsValid :
    (text : List ℕ) (s : Settings) → IsValid s → IsValid (load_host_conf text s)
unfolding load_host_conf
load_host_conf-IsValid text s h = load_lines-IsValid s (read_lines text) h
