-- ===== src/Ui/Conf.antt =====
-- host/src/ui/ui_common.cpp and host_ui.h: the settings and the file host.conf that keeps them.
pub mod Trim
pub mod RoundTrip
pub mod Edited
pub mod Load
pub mod Keys
pub mod Valid
use immersive.Base.{
  ℕ, ◌+◌, ◌≡◌, refl, Bool, true, false, not, ◌&&◌, ◌||◌, List, [], ◌∷◌, ◌++◌, Option, none, some,
  leb, ◌==◌, if◌then◌else◌, concat, map, get_or, codes, text_eq, is_empty, before, behind, pieces,
  skip_while, strip_while, starts_with, atoi,
}

pub record Settings : Type 0 where
  pub pin_enabled : Bool
  pub pin : ℕ
  pub view_only : Bool
  pub codec : ℕ
  pub jpeg_quality : ℕ
  pub audio : Bool
  pub usb : Bool

abbrev is_blank : ℕ → Bool
is_blank c = c == 32 || c == 9 || c == 13 || c == 10

pub trim : List ℕ → List ℕ
unfolding strip_while skip_while
trim s = strip_while is_blank (skip_while is_blank s)

pub truthy : List ℕ → Bool
unfolding text_eq
truthy v =
    text_eq v (codes "on")
    || text_eq v (codes "1")
    || text_eq v (codes "true")
    || text_eq v (codes "yes")

-- How the panel writes a switch.
abbrev pub on_off : Bool → List ℕ
on_off on = if on then codes "on" else codes "off"

-- A line of host.conf: a key and its value, or no key and a line that is kept as it is.
pub record Line : Type 0 where
  pub key : List ℕ
  pub value : List ℕ

abbrev pub kept : List ℕ → Line
kept line = record { key = []; value = line }

pub key_line : (line key value : List ℕ) → Line
unfolding trim is_empty
key_line line key value =
    if is_empty key || get_or key 0 0 == b'#'
    then kept line
    else record { key = key; value = trim value }

pub split_line : (line raw : List ℕ) → Option (List ℕ) → Line
unfolding key_line
split_line line raw none = kept line
split_line line raw (some value) = key_line line (trim raw) value

pub read_line : List ℕ → Line
unfolding before behind split_line
read_line line = split_line line (before b'=' line) (behind b'=' line)

-- The lines of the file's text; a file that is not there has none.
pub read_lines : List ℕ → List Line
unfolding read_line pieces
read_lines text = map read_line (pieces 10 text)

-- What one line sets; a number or a codec that it does not know changes nothing.
pub load_line : Settings → Line → Settings
unfolding truthy text_eq atoi
load_line s l =
    let k = l.key in
    let v = l.value in
    if text_eq k (codes "pin")
    then record s { pin_enabled = truthy v }
    else if text_eq k (codes "view_only")
    then record s { view_only = truthy v }
    else if text_eq k (codes "audio")
    then record s { audio = truthy v }
    else if text_eq k (codes "usb")
    then record s { usb = truthy v }
    else if text_eq k (codes "jpeg_quality")
    then (let q = atoi v in
        if not q.negative && leb 10 q.digits && leb q.digits 95
        then record s { jpeg_quality = q.digits }
        else s)
    else if text_eq k (codes "codec")
    then (if text_eq v (codes "h264")
        then record s { codec = 0 }
        else if text_eq v (codes "h265") || text_eq v (codes "hevc")
        then record s { codec = 1 }
        else if text_eq v (codes "mjpeg")
        then record s { codec = 2 }
        else if text_eq v (codes "av1")
        then record s { codec = 3 }
        else s)
    else s

pub load_lines : Settings → List Line → Settings
load_lines s [] = s
load_lines s (l ∷ ls) = load_lines (load_line s l) ls

pub load_host_conf : List ℕ → Settings → Settings
unfolding load_lines read_lines
load_host_conf text s = load_lines s (read_lines text)

-- save_host_conf_key: every line of the key gets the value.
pub set_value : List ℕ → List ℕ → List Line → List Line
unfolding text_eq
set_value key value [] = []
set_value key value (l ∷ ls) =
    (if text_eq l.key key then record l { value = value } else l) ∷ set_value key value ls

pub has_key : List ℕ → List Line → Bool
unfolding text_eq
has_key key [] = false
has_key key (l ∷ ls) = text_eq l.key key || has_key key ls

pub set_line : List ℕ → List ℕ → List Line → List Line
unfolding set_value has_key
set_line key value ls =
    set_value key value ls
    ++ (if has_key key ls then [] else record { key = key; value = value } ∷ [])

-- The two lines that a file of the panel's own begins with.
abbrev pub head_lines : List Line
head_lines =
    kept (codes "# Immersive-2 host settings, written by its settings panel.")
    ∷ kept (codes "# Command-line flags override them for one run.")
    ∷ []

-- Whether the first line is already that mark.
pub is_marked : List Line → Bool
unfolding is_empty starts_with
is_marked [] = false
is_marked (l ∷ ls) = is_empty l.key && starts_with (codes "# Immersive-2") l.value

-- What is printed of a line, without the line feed behind it.
pub line_text : Line → List ℕ
unfolding is_empty
line_text l = if is_empty l.key then l.value else l.key ++ (codes " = " ++ l.value)

pub print_line : Line → List ℕ
unfolding line_text
print_line l = line_text l ++ 10 ∷ []

pub print_lines : List Line → List ℕ
unfolding print_line
print_lines ls = concat (map print_line ls)

-- What save_host_conf_key writes into a file beside host.conf.
pub new_conf : (text key value : List ℕ) → List ℕ
unfolding print_lines is_marked set_line read_lines
new_conf text key value =
    let lines = set_line key value (read_lines text) in
    print_lines ((if is_marked lines then [] else head_lines) ++ lines)

-- How the system calls of a save end: whether that file is written whole, and whether it then takes
-- the place of host.conf.
pub record Disk : Type 0 where
  pub written : Bool
  pub renamed : Bool

-- The text of host.conf after a save, and whether it succeeded.
pub save_host_conf_key : Disk → (text key value : List ℕ) → List ℕ × Bool
save_host_conf_key disk text key value =
    if not disk.written
    then (text, false)
    else if not disk.renamed
    then (text, false)
    else (new_conf text key value, true)

abbrev sample : List ℕ
sample = codes "codec=av1\n# note\n pin =  off \nusb"

sample_lines :
    read_lines (new_conf sample (codes "pin") (codes "on"))
    ≡ head_lines
      ++ (record { key = codes "codec"; value = codes "av1" }
          ∷ kept (codes "# note")
          ∷ record { key = codes "pin"; value = codes "on" }
          ∷ kept (codes "usb")
          ∷ [])
unfolding read_lines new_conf
sample_lines = refl
