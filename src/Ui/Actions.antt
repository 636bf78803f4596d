-- ===== src/Ui/Actions.antt =====
-- host/src/ui/panel.cpp: what the settings panel changes when it is asked to, and stores.
use immersive.Base.{
  ℕ, Bool, not, ◌&&◌, ◌||◌, List, [], ◌∷◌, ◌++◌, Option, none, some, ltb, if◌then◌else◌, bit_or,
  u32, map, codes, text_eq, atoi, strtoul, decimal,
}
use immersive.Protocol.{
  host_flag_view_only, host_flag_virtual_displays, host_flag_screen_off, virtual_monitor_id_base,
}
use immersive.Ui.Conf.{Disk, Settings, on_off, save_host_conf_key}
use immersive.Ui.Form.{TextMap, text_at}

-- What the panel is started with: Options, the token of this run and the port it listens on.
pub record Options : Type 0 where
  pub port : ℕ
  pub token : List ℕ
  pub audio_available : Bool
  pub virtual_supported : Bool
  pub screen_off_supported : Bool

-- What the panel changes: the settings, and the texts of host.conf and of the PIN's file.
pub record State : Type 0 where
  pub settings : Settings
  pub conf : List ℕ
  pub pin_file : List ℕ

-- What the rest of the host and the system answer while a request is served: a random PIN, how a
-- save of host.conf ends, what a failed write of the PIN's file leaves in it (none if it succeeds),
-- whether the login item could be changed, which virtual screens can be removed, whether the desktop
-- portal refused input, and the paired clients.
pub record Answers : Type 0 where
  pub random_pin : ℕ
  pub disk : Disk
  pub pin_failure : Option (List ℕ)
  pub autostart_set : Bool
  pub remove_virtual : ℕ → Bool
  pub input_denied : Bool
  pub clients : List ℕ

-- A call that leaves the panel.
pub data Call : Type 0 where
  set_host_flags set_pin disconnect_client remove_virtual : ℕ → Call
  set_autostart : Bool → Call
  audio_start audio_stop : ℕ → Call
  ask_again quit : Call

-- What act() leaves behind, with its error, which is empty where it did what was asked.
pub record Outcome : Type 0 where
  pub state : State
  pub calls : List Call
  pub error : List ℕ

unfoldable pub host_flags : Options → Settings → ℕ
host_flags o s =
    bit_or
      (bit_or (if s.view_only then host_flag_view_only else 0)
        (if o.virtual_supported then host_flag_virtual_displays else 0))
      (if o.screen_off_supported then host_flag_screen_off else 0)

-- AUDIO_START or AUDIO_STOP to every paired client.
unfoldable pub announce_audio : Bool → List ℕ → List Call
announce_audio on clients = map (if on then audio_start else audio_stop) clients

unfoldable pub refused : State → List ℕ → Outcome
refused st error = record { state = st; calls = []; error = error }

-- A setting that is changed and saved under its key; nobody asks whether the save succeeded.
unfoldable pub stored : Disk → State → Settings → List ℕ → List ℕ → List Call → Outcome
stored disk st s key value calls = record {
  state = record st { settings = s; conf = (save_host_conf_key disk st.conf key value).0 };
  calls = calls;
  error = [];
}

-- new_pairing_pin, which also writes the file that keeps the PIN.
unfoldable pub new_pairing_pin : State → Answers → State
new_pairing_pin st ans = record st {
  settings = record st.settings { pin = ans.random_pin };
  pin_file = elim ans.pin_failure [ none ↦ decimal ans.random_pin ++ 10 ∷ [] | some left ↦ left ];
}

unfoldable pub set_pin_enabled : State → Bool → Answers → Outcome
set_pin_enabled st on ans =
    let st' = if on && ltb st.settings.pin 100000 then new_pairing_pin st ans else st in
    stored ans.disk st' (record st'.settings { pin_enabled = on }) (codes "pin") (on_off on)
      (set_pin (if on then st'.settings.pin else 0) ∷ [])

-- kCodecNames.
unfoldable pub codec_named : List ℕ → Option ℕ
codec_named v =
    if text_eq v (codes "h264")
    then some 0
    else if text_eq v (codes "h265")
    then some 1
    else if text_eq v (codes "mjpeg")
    then some 2
    else if text_eq v (codes "av1")
    then some 3
    else none

unfoldable pub set_codec : Disk → State → List ℕ → Outcome
set_codec disk st v = elim (codec_named v) [
  | none ↦ refused st (codes "unknown codec")
  | some codec ↦ stored disk st (record st.settings { codec = codec }) (codes "codec") v []
]

unfoldable pub set_quality : Disk → State → List ℕ → Outcome
set_quality disk st v =
    let q = atoi v in
    if q.negative || ltb q.digits 10 || ltb 95 q.digits
    then refused st (codes "quality must be 10-95")
    else stored disk st (record st.settings { jpeg_quality = q.digits }) (codes "jpeg_quality")
        (decimal q.digits) []

unfoldable pub set_audio : Options → Disk → State → Bool → List ℕ → Outcome
set_audio o disk st on clients =
    if not o.audio_available
    then refused st (codes "sound is off for this run")
    else stored disk st (record st.settings { audio = on }) (codes "audio") (on_off on)
        (if st.settings.audio
          then (if on then [] else announce_audio on clients)
          else (if on then announce_audio on clients else []))

-- The settings of /api/set.
unfoldable pub set_key : Options → Answers → State → List ℕ → List ℕ → Outcome
set_key o ans st key value =
    let on =
      text_eq value (codes "1") || text_eq value (codes "on") || text_eq value (codes "true") in
    if text_eq key (codes "view_only")
    then (let s = record st.settings { view_only = on } in
        stored ans.disk st s (codes "view_only") (on_off on) (set_host_flags (host_flags o s) ∷ []))
    else if text_eq key (codes "pin")
    then set_pin_enabled st on ans
    else if text_eq key (codes "codec")
    then set_codec ans.disk st value
    else if text_eq key (codes "jpeg_quality")
    then set_quality ans.disk st value
    else if text_eq key (codes "audio")
    then set_audio o ans.disk st on ans.clients
    else if text_eq key (codes "usb")
    then stored ans.disk st (record st.settings { usb = on }) (codes "usb") (on_off on) []
    else if text_eq key (codes "autostart")
    then record {
      state = st;
      calls = set_autostart on ∷ [];
      error = if ans.autostart_set then [] else codes "could not change the login item";
    }
    else refused st (codes "unknown setting")

unfoldable pub make_pin : State → Answers → Outcome
make_pin st ans = record {
  state = new_pairing_pin st ans;
  calls = if st.settings.pin_enabled then set_pin ans.random_pin ∷ [] else [];
  error = [];
}

-- A screen below the virtual ones or above 255 is not even asked for.
unfoldable pub remove_screen : Answers → State → List ℕ → Outcome
remove_screen ans st v =
    let id = atoi v in
    if id.negative || ltb id.digits virtual_monitor_id_base || ltb 255 id.digits
    then refused st (codes "no such virtual screen")
    else record {
      state = st;
      calls = remove_virtual id.digits ∷ [];
      error = if ans.remove_virtual id.digits then [] else codes "no such virtual screen";
    }

unfoldable pub act : Options → Answers → State → List ℕ → TextMap → Outcome
act o ans st path form =
    if text_eq path (codes "/api/set")
    then set_key o ans st (text_at (codes "key") form) (text_at (codes "value") form)
    else if text_eq path (codes "/api/new-pin")
    then make_pin st ans
    else if text_eq path (codes "/api/disconnect")
    then record {
      state = st;
      calls = disconnect_client (u32 (strtoul (text_at (codes "id") form))) ∷ [];
      error = [];
    }
    else if text_eq path (codes "/api/remove-virtual")
    then remove_screen ans st (text_at (codes "id") form)
    else if text_eq path (codes "/api/ask-input")
    then (if ans.input_denied
        then record { state = st; calls = ask_again ∷ []; error = [] }
        else refused st (codes "remote control is not blocked"))
    else if text_eq path (codes "/api/quit")
    then record { state = st; calls = quit ∷ []; error = [] }
    else refused st (codes "unknown action")
