-- ===== src/Usb.antt =====
-- host/src/usb/adb_reverse.cpp: the USB tunnel that the host keeps on every headset on a cable. adb
-- is run as a process, whose answers are arguments.
pub mod Order
pub mod Commands
pub mod Told
pub mod Notices
use immersive.Base.{
  ℕ, zero, suc, ◌≡◌, Bool, true, false, not, ◌&&◌, ◌||◌, List, [], ◌∷◌, ◌++◌, Option, none, some,
  leb, ltb, ◌==◌, if◌then◌else◌, codes, text_eq, text_lt, is_empty, before, behind, pieces,
  strip_while, starts_with, words, decimal, is_digit,
}
use immersive.Ui.Form.{TextMap, find_text}

-- What one run of adb returns: whether it exited with 0, and what it printed.
pub record Run : Type 0 where
  pub ok : Bool
  pub out : List ℕ

-- The answers of adb in one round: to `devices`, and to the commands of each line of its list.
pub record Adb : Type 0 where
  pub devices : Run
  pub run : ℕ → List ℕ → Run

-- `\r` and space.
abbrev is_padding : ℕ → Bool
is_padding c = c == 13 || c == 32

unfoldable pub first_line : List ℕ → List ℕ
first_line s =
    let line = strip_while is_padding (before 10 s) in
    if is_empty line then codes "no output" else line

unfoldable pub is_serial_char : ℕ → Bool
is_serial_char c =
    leb 65 c && leb c 90
    || leb 97 c && leb c 122
    || is_digit c
    || c == 46
    || c == 95
    || c == 58
    || c == 45

unfoldable pub are_serial_chars : List ℕ → Bool
are_serial_chars [] = true
are_serial_chars (c ∷ s) = is_serial_char c && are_serial_chars s

unfoldable pub plain_serial : List ℕ → Bool
plain_serial s = not (is_empty s) && are_serial_chars s

-- The word before the last one.
unfoldable pub last_but_one : List (List ℕ) → Option (List ℕ)
last_but_one [] = none
last_but_one (w ∷ []) = none
last_but_one (v ∷ w ∷ []) = some v
last_but_one (v ∷ w ∷ x ∷ ws) = last_but_one (w ∷ x ∷ ws)

unfoldable pub any_rule : List (List ℕ) → List ℕ → Bool
any_rule [] rule = false
any_rule (line ∷ lines) rule =
    elim (last_but_one (words line)) [ none ↦ false | some w ↦ text_eq w rule ]
    || any_rule lines rule

unfoldable pub has_rule : List ℕ → List ℕ → Bool
has_rule list rule = any_rule (pieces 10 list) rule

unfoldable pub rule_of : ℕ → List ℕ
rule_of port = codes "tcp:" ++ decimal port

unfoldable pub list_command : (serial : List ℕ) → List ℕ
list_command serial = codes "-s " ++ (serial ++ codes " reverse --list")

unfoldable pub arm_command : (serial rule : List ℕ) → List ℕ
arm_command serial rule =
    codes "-s " ++ (serial ++ (codes " reverse " ++ (rule ++ (codes " " ++ rule))))

-- The state of a device that is ready to talk, and the commands that were run for it.
unfoldable pub arm : (List ℕ → Run) → (rule serial : List ℕ) → List ℕ × List (List ℕ)
arm run rule serial =
    let listed = run (list_command serial) in
    let armed = run (arm_command serial rule) in
    if listed.ok && has_rule listed.out rule then (codes "ready", list_command serial ∷ []) else (
      if armed.ok then codes "ready" else codes "tunnel failed: " ++ first_line armed.out,
      list_command serial ∷ arm_command serial rule ∷ [],
    )

-- A std::map's entries stand in the order of their keys.
unfoldable pub put_text : List ℕ → List ℕ → TextMap → TextMap
put_text k v [] = (k, v) ∷ []
put_text k v ((j, w) ∷ m) =
    if text_eq j k
    then (k, v) ∷ m
    else if text_lt k j
    then (k, v) ∷ (j, w) ∷ m
    else (j, w) ∷ put_text k v m

-- The devices found so far, and the commands that were run.
pub record Scan : Type 0 where
  pub now : TextMap
  pub commands : List (List ℕ)

-- A device of the list: its state as adb gives it.
unfoldable pub scan_device : (List ℕ → Run) → (rule serial state : List ℕ) → Scan → Scan
scan_device run rule serial state seen =
    if not (plain_serial serial)
    then seen
    else if text_eq state (codes "device")
    then record {
      now = put_text serial (arm run rule serial).0 seen.now;
      commands = seen.commands ++ (arm run rule serial).1;
    }
    else record seen { now = put_text serial state seen.now }

-- What stands behind the first tab; none: the header, daemon chatter.
unfoldable pub scan_tab : (List ℕ → Run) → (rule serial : List ℕ) → Scan → Option (List ℕ) → Scan
scan_tab run rule serial seen none = seen
scan_tab run rule serial seen (some rest) =
    scan_device run rule serial (strip_while is_padding rest) seen

unfoldable pub scan_line : (List ℕ → Run) → (rule line : List ℕ) → Scan → Scan
scan_line run rule line seen = scan_tab run rule (before 9 line) seen (behind 9 line)

unfoldable pub scan_lines : (ℕ → List ℕ → Run) → (rule : List ℕ) → ℕ → List (List ℕ) → Scan → Scan
scan_lines run rule i [] seen = seen
scan_lines run rule i (line ∷ lines) seen =
    scan_lines run rule (suc i) lines (scan_line (run i) rule line seen)

-- What the host tells: adb does not answer, answers again, a headset's new state.
pub data Notice : Type 0 where
  silent : List ℕ → Notice
  answers_again : Notice
  report : (serial state : List ℕ) → Notice

unfoldable pub is_passing : List ℕ → Bool
is_passing state = text_eq state (codes "authorizing") || text_eq state (codes "connecting")

-- Whether the state of a serial is the one last seen.
unfoldable pub is_known : TextMap → (serial state : List ℕ) → Bool
is_known last serial state = elim (find_text serial last) [
  | none ↦ false
  | some old ↦ text_eq old state
]

unfoldable pub changed : (last now : TextMap) → List Notice
changed last [] = []
changed last ((serial, state) ∷ now) =
    let rest = changed last now in
    if is_passing state || is_known last serial state then rest else report serial state ∷ rest

-- A headset that was on the cable, with its state of now, if it is still there.
unfoldable pub missing : (serial : List ℕ) → Option (List ℕ) → List Notice → List Notice
missing serial none rest = report serial (codes "gone") ∷ rest
missing serial (some _) rest = rest

unfoldable pub unplugged : (last now : TextMap) → List Notice
unplugged [] now = []
unplugged ((serial, _) ∷ last) now = missing serial (find_text serial now) (unplugged last now)

-- The variables of the loop.
pub record Tunnel : Type 0 where
  pub last : TextMap
  pub adb_ok : Bool

pub record Round : Type 0 where
  pub tunnel : Tunnel
  pub notices : List Notice
  pub commands : List (List ℕ)

unfoldable pub keep_round : ℕ → Adb → Tunnel → Round
keep_round port adb t =
    let seen =
      scan_lines adb.run (rule_of port) 0 (pieces 10 adb.devices.out)
        (record { now = []; commands = [] }) in
    if not adb.devices.ok
    then record {
      tunnel = record t { adb_ok = false };
      notices = if t.adb_ok then silent (first_line adb.devices.out) ∷ [] else [];
      commands = codes "devices" ∷ [];
    }
    else record {
      tunnel = record { last = seen.now; adb_ok = true };
      notices =
          (if t.adb_ok then [] else answers_again ∷ [])
          ++ (changed t.last seen.now ++ unplugged t.last seen.now);
      commands = codes "devices" ∷ seen.commands;
    }

-- The rounds until the host stops, with all that is told and run.
unfoldable pub keep_adb_reverse : ℕ → List Adb → Tunnel → Round
keep_adb_reverse port [] t = record { tunnel = t; notices = []; commands = [] }
keep_adb_reverse port (adb ∷ adbs) t =
    let first = keep_round port adb t in
    let rest = keep_adb_reverse port adbs first.tunnel in
    record {
      tunnel = rest.tunnel;
      notices = first.notices ++ rest.notices;
      commands = first.commands ++ rest.commands;
    }
