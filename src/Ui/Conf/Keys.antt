-- ===== src/Ui/Conf/Keys.antt =====
-- host/src/ui/ui_common.cpp: the keys of host.conf that the panel saves, and their values.
use immersive.Base.{
  ℕ, ◌≤◌, ◌≡◌, refl, ap, Bool, true, false, not, ◌&&◌, List, arith, ◌==◌, codes, text_eq,
  text_eq_iff, contains, decimal, atoi, holds_from, holds_from_lem,
}
use immersive.Ui.Conf.{Settings, on_off, Line, truthy, load_line, read_line, line_text}
use immersive.Ui.Conf.Trim.{Lacks-contains}
use immersive.Ui.Conf.RoundTrip.{IsLine}
use immersive.Ui.Conf.Load.{IsSetting}

abbrev pair : List ℕ → List ℕ → Line
pair key value = record { key = key; value = value }

pin-IsSetting : (v : List ℕ) → IsSetting (codes "pin") v
unfolding load_line text_eq
pin-IsSetting v = record { overrules = λ s w. refl; trades = λ s l h. ground (arith, h) }

view_only-IsSetting : (v : List ℕ) → IsSetting (codes "view_only") v
unfolding load_line text_eq
view_only-IsSetting v = record { overrules = λ s w. refl; trades = λ s l h. ground (arith, h) }

audio-IsSetting : (v : List ℕ) → IsSetting (codes "audio") v
unfolding load_line text_eq
audio-IsSetting v = record { overrules = λ s w. refl; trades = λ s l h. ground (arith, h) }

usb-IsSetting : (v : List ℕ) → IsSetting (codes "usb") v
unfolding load_line text_eq
usb-IsSetting v = record { overrules = λ s w. refl; trades = λ s l h. ground (arith, h) }

-- What a value that is understood sets, in the two keys that refuse some values.
module _ (v : List ℕ) (n : ℕ) where
  codec-IsSetting :
      ((s : Settings) → load_line s (pair (codes "codec") v) ≡ record s { codec = n })
      → IsSetting (codes "codec") v
  unfolding load_line text_eq
  codec-IsSetting sets = record {
    overrules =
        λ s w. let old = load_line s (pair (codes "codec") w) in ground (arith, sets old, sets s);
    trades = λ s l h. ground (arith, h, sets s, sets (load_line s l));
  }

  quality-IsSetting :
      ((s : Settings) → load_line s (pair (codes "jpeg_quality") v) ≡ record s { jpeg_quality = n })
      → IsSetting (codes "jpeg_quality") v
  unfolding load_line text_eq
  quality-IsSetting sets = record {
    overrules = λ s w.
        let old = load_line s (pair (codes "jpeg_quality") w) in ground (arith, sets old, sets s);
    trades = λ s l h. ground (arith, h, sets s, sets (load_line s l));
  }

-- Every quality that the panel takes is printed as a line that is read as that quality.
reads_quality : ℕ → Bool
unfolding decimal read_line line_text atoi
reads_quality q =
    let v = decimal q in
    let l = read_line (line_text (pair (codes "jpeg_quality") v)) in
    not (contains (line_text (pair (codes "jpeg_quality") v)) 10)
    && (text_eq l.key (codes "jpeg_quality") && text_eq l.value v)
    && (not (atoi v).negative && ((atoi v).digits == q))

reads_qualities : holds_from reads_quality 10 86 ≡ true
unfolding holds_from reads_quality text_eq
reads_qualities = refl

module _ (q : ℕ) (low : 10 ≤ q) (high : q ≤ 95) where
  reads : reads_quality q ≡ true
  reads = holds_from_lem reads_quality 10 86 q reads_qualities low (omega arith)

  quality-load :
      (s : Settings)
      → load_line s (pair (codes "jpeg_quality") (decimal q)) ≡ record s { jpeg_quality = q }
  unfolding load_line text_eq reads_quality
  quality-load s = ground (arith, reads)

  quality-IsLine : IsLine (pair (codes "jpeg_quality") (decimal q))
  unfolding reads_quality
  quality-IsLine =
      let v = decimal q in
      let text = line_text (pair (codes "jpeg_quality") v) in
      record {
        one_line = Lacks-contains 10 text (ground (arith, reads));
        rereads = ground (
          arith,
          reads,
          text_eq_iff (read_line text).key (codes "jpeg_quality"),
          text_eq_iff (read_line text).value v,
        );
      }

pub load_line-pin :
    (s : Settings) (l : Line) (p : ℕ)
    → load_line (record s { pin = p }) l ≡ record (load_line s l) { pin = p }
unfolding load_line
load_line-pin s l p = ground arith

-- The line is read back from the file, and whatever else is in the file it makes that change.
pub record Saves (key value : List ℕ) (change : Settings → Settings) : Type 0 where
  pub line : IsLine (pair key value)
  pub setting : IsSetting key value
  pub loads : (s : Settings) → load_line s (pair key value) ≡ change s

-- A line that is a literal.
literal-IsLine :
    (key value : List ℕ)
    → contains (line_text (pair key value)) 10 ≡ false
    → read_line (line_text (pair key value)) ≡ pair key value
    → IsLine (pair key value)
literal-IsLine key value h e = record {
  one_line = Lacks-contains 10 (line_text (pair key value)) h;
  rereads = e;
}

on_off-IsLine :
    (key : List ℕ)
    → IsLine (pair key (codes "on"))
    → IsLine (pair key (codes "off"))
    → (on : Bool) → IsLine (pair key (on_off on))
on_off-IsLine key yes_line no_line true = yes_line
on_off-IsLine key yes_line no_line false = no_line

truthy-on_off : (on : Bool) → truthy (on_off on) ≡ on
unfolding truthy text_eq
truthy-on_off true = refl
truthy-on_off false = refl

module _ (on : Bool) where
  pub pin-Saves : Saves (codes "pin") (on_off on) (λ s. record s { pin_enabled = on })
  unfolding load_line text_eq line_text read_line
  pin-Saves = record {
    line =
        on_off-IsLine (codes "pin") (literal-IsLine (codes "pin") (codes "on") refl refl)
          (literal-IsLine (codes "pin") (codes "off") refl refl) on;
    setting = pin-IsSetting (on_off on);
    loads = λ s. ap (λ (b : Bool). record s { pin_enabled = b }) (truthy-on_off on);
  }

  pub view_only-Saves : Saves (codes "view_only") (on_off on) (λ s. record s { view_only = on })
  unfolding load_line text_eq line_text read_line
  view_only-Saves = record {
    line =
        on_off-IsLine (codes "view_only")
          (literal-IsLine (codes "view_only") (codes "on") refl refl)
          (literal-IsLine (codes "view_only") (codes "off") refl refl) on;
    setting = view_only-IsSetting (on_off on);
    loads = λ s. ap (λ (b : Bool). record s { view_only = b }) (truthy-on_off on);
  }

  pub audio-Saves : Saves (codes "audio") (on_off on) (λ s. record s { audio = on })
  unfolding load_line text_eq line_text read_line
  audio-Saves = record {
    line =
        on_off-IsLine (codes "audio") (literal-IsLine (codes "audio") (codes "on") refl refl)
          (literal-IsLine (codes "audio") (codes "off") refl refl) on;
    setting = audio-IsSetting (on_off on);
    loads = λ s. ap (λ (b : Bool). record s { audio = b }) (truthy-on_off on);
  }

  pub usb-Saves : Saves (codes "usb") (on_off on) (λ s. record s { usb = on })
  unfolding load_line text_eq line_text read_line
  usb-Saves = record {
    line =
        on_off-IsLine (codes "usb") (literal-IsLine (codes "usb") (codes "on") refl refl)
          (literal-IsLine (codes "usb") (codes "off") refl refl) on;
    setting = usb-IsSetting (on_off on);
    loads = λ s. ap (λ (b : Bool). record s { usb = b }) (truthy-on_off on);
  }

pub h264-Saves : Saves (codes "codec") (codes "h264") (λ s. record s { codec = 0 })
unfolding load_line text_eq line_text read_line
h264-Saves = record {
  line = literal-IsLine (codes "codec") (codes "h264") refl refl;
  setting = codec-IsSetting (codes "h264") 0 (λ s. refl);
  loads = λ s. refl;
}

pub h265-Saves : Saves (codes "codec") (codes "h265") (λ s. record s { codec = 1 })
unfolding load_line text_eq line_text read_line
h265-Saves = record {
  line = literal-IsLine (codes "codec") (codes "h265") refl refl;
  setting = codec-IsSetting (codes "h265") 1 (λ s. refl);
  loads = λ s. refl;
}

pub mjpeg-Saves : Saves (codes "codec") (codes "mjpeg") (λ s. record s { codec = 2 })
unfolding load_line text_eq line_text read_line
mjpeg-Saves = record {
  line = literal-IsLine (codes "codec") (codes "mjpeg") refl refl;
  setting = codec-IsSetting (codes "mjpeg") 2 (λ s. refl);
  loads = λ s. refl;
}

pub av1-Saves : Saves (codes "codec") (codes "av1") (λ s. record s { codec = 3 })
unfolding load_line text_eq line_text read_line
av1-Saves = record {
  line = literal-IsLine (codes "codec") (codes "av1") refl refl;
  setting = codec-IsSetting (codes "av1") 3 (λ s. refl);
  loads = λ s. refl;
}

pub quality-Saves :
    (q : ℕ)
    → 10 ≤ q
    → q ≤ 95
    → Saves (codes "jpeg_quality") (decimal q) (λ s. record s { jpeg_quality = q })
quality-Saves q low high = record {
  line = quality-IsLine q low high;
  setting = quality-IsSetting (decimal q) q (quality-load q low high);
  loads = quality-load q low high;
}
