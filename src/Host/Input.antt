-- ===== src/Host/Input.antt =====
-- host/src/main.cpp: the mouse and keyboard handlers and release_input. What goes to the input
-- injector is a list; `std::set` is a sorted list without repetitions.
pub mod Held
pub mod Scale
use immersive.Base.{
  ℕ, Bool, true, false, not, ◌&&◌, ◌||◌, List, [], ◌∷◌, ◌++◌, map, ltb, leb, ◌==◌, if◌then◌else◌,
  bit_and, remove,
}
use immersive.Protocol.Messages.{InputMouse, InputKeyboard}

-- held_mouse (the last one injected) and held_keys.
pub record InputState : Type 0 where
  pub held_mouse : InputMouse
  pub held_keys : List ℕ

-- A call of the input injector.
pub data Injected : Type 0 where
  mouse : InputMouse → Injected
  keyboard : InputKeyboard → Injected

abbrev pub no_mouse : InputMouse
no_mouse = record {
  monitor_id = 0;
  x = 0;
  y = 0;
  buttons = 0;
  scroll_delta = 0;
  scroll_delta_h = 0;
}

abbrev pub initial_input : InputState
initial_input = record { held_mouse = no_mouse; held_keys = [] }

-- held_keys.insert
pub insert_key : ℕ → List ℕ → List ℕ
insert_key vk [] = vk ∷ []
insert_key vk (k ∷ ks) =
    let rest = insert_key vk ks in
    if k == vk then k ∷ ks else if ltb vk k then vk ∷ k ∷ ks else k ∷ rest

pub release_keys : ℕ → List ℕ → List Injected
release_keys monitor_id [] = []
release_keys monitor_id (vk ∷ vks) =
    keyboard (record { monitor_id = monitor_id; scancode = vk; pressed = 0; modifiers = 0 })
    ∷ release_keys monitor_id vks

pub release_input : InputState → InputState × List Injected
release_input st =
    let buttons_up =
      if st.held_mouse.buttons == 0
      then []
      else mouse (record st.held_mouse { buttons = 0; scroll_delta = 0; scroll_delta_h = 0 })
        ∷ [] in
    (
      record { held_mouse = record st.held_mouse { buttons = 0 }; held_keys = [] },
      buttons_up ++ release_keys st.held_mouse.monitor_id st.held_keys,
    )

-- The guards of both handlers: view-only, and only the streaming client drives.
pub may_drive : Bool → ℕ → ℕ → Bool
may_drive view_only input_client_id client_id = not view_only && (client_id == input_client_id)

-- The mouse handler behind its guards, with the coordinates already scaled.
pub inject_mouse : InputState → InputMouse → InputState × List Injected
inject_mouse st scaled = (record st { held_mouse = scaled }, mouse scaled ∷ [])

-- kMods: the modifier bits and their keys.
abbrev pub k_mods : List (ℕ × ℕ)
k_mods = (0x01, 0x10) ∷ (0x02, 0x11) ∷ (0x04, 0x12) ∷ (0x08, 0x5B) ∷ []

pub is_modifier : ℕ → Bool
is_modifier vk =
    (leb 0x10 vk && leb vk 0x12) || (leb 0xA0 vk && leb vk 0xA5) || (vk == 0x5B) || (vk == 0x5C)

-- `key`: one key goes down or up.
pub key : InputState → InputKeyboard → ℕ → Bool → InputState × List Injected
key st input vk down = (
  record st { held_keys = if down then insert_key vk st.held_keys else remove vk st.held_keys },
  keyboard (record input { scancode = vk; pressed = if down then 1 else 0 }) ∷ [],
)

pub send_mods : List (ℕ × ℕ) → InputState → InputKeyboard → Bool → InputState × List Injected
send_mods [] st input down = (st, [])
send_mods ((bit, vk) ∷ mods) st input down =
    let (st', injected) =
      if is_modifier input.scancode || (bit_and input.modifiers bit == 0)
      then (st, [])
      else key st input vk down in
    let (st'', rest) = send_mods mods st' input down in (st'', injected ++ rest)

-- The keyboard handler behind its guards: the latched modifiers go down before a key, up after it.
pub key_down : InputState → InputKeyboard → InputState × List Injected
key_down st input =
    let (st1, before) = send_mods k_mods st input true in
    let (st2, pressed) = key st1 input input.scancode true in (st2, before ++ pressed)

pub key_up : InputState → InputKeyboard → InputState × List Injected
key_up st input =
    let (st1, released) = key st input input.scancode false in
    let (st2, after) = send_mods k_mods st1 input false in (st2, released ++ after)

pub inject_keyboard : InputState → InputKeyboard → InputState × List Injected
inject_keyboard st input = if input.pressed == 0 then key_up st input else key_down st input

-- A request of a client, its mouse coordinates scaled.
pub data InputRequest : Type 0 where
  mouse_request : InputMouse → InputRequest
  keyboard_request : InputKeyboard → InputRequest

-- set_on_input_mouse and set_on_input_keyboard with their guards.
pub on_input : InputState → Bool → ℕ → ℕ → InputRequest → InputState × List Injected
on_input st view_only input_client_id client_id (mouse_request m) =
    if may_drive view_only input_client_id client_id then inject_mouse st m else (st, [])
on_input st view_only input_client_id client_id (keyboard_request k) =
    if may_drive view_only input_client_id client_id then inject_keyboard st k else (st, [])
