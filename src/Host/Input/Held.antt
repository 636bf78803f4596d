-- ===== src/Host/Input/Held.antt =====
-- host/src/main.cpp: what is held down on the PC is on record, and release_input lets go of it all.
use immersive.Base.{
  ℕ, ◌≡◌, refl, sym, ◌∙◌, Bool, true, false, not, List, [], ◌∷◌, ◌++◌, arith, ◌==◌, if◌then◌else◌,
  contains, contains-remove, ◌||◌, bit_and,
}
use mathlib.Core.Path.{subst}
use immersive.Protocol.Messages.{InputMouse, InputKeyboard}
use immersive.Host.Input.{
  InputState, Injected, mouse, keyboard, insert_key, release_keys, release_input, inject_mouse, key,
  send_mods, key_down, key_up, inject_keyboard, initial_input, InputRequest, mouse_request,
  keyboard_request, on_input, k_mods, is_modifier,
}

-- What a PC makes of the calls of the injector: the buttons and the keys that are down.
pub record Pressed : Type 0 where
  pub buttons : ℕ
  pub keys : ℕ → Bool

pub press : Pressed → Injected → Pressed
press p (mouse m) = record p { buttons = m.buttons }
press p (keyboard k) = record p {
  keys = λ vk. if k.scancode == vk then not (k.pressed == 0) else p.keys vk;
}

pub press_all : Pressed → List Injected → Pressed
press_all p [] = p
press_all p (i ∷ injected) = press_all (press p i) injected

abbrev pub nothing_pressed : Pressed
nothing_pressed = record { buttons = 0; keys = λ _. false }

-- The record of the host agrees with the PC.
abbrev pub Tracks : InputState → Pressed → Type 0
Tracks st p =
    (st.held_mouse.buttons ≡ p.buttons) × ((vk : ℕ) → contains st.held_keys vk ≡ p.keys vk)

-- The record still agrees after a handler that left this state and made these calls.
abbrev pub Follows : Pressed → InputState × List Injected → Type 0
Follows p r = Tracks r.0 (press_all p r.1)

press_all-append :
    (p : Pressed) (xs ys : List Injected) → press_all p (xs ++ ys) ≡ press_all (press_all p xs) ys
unfolding press_all
press_all-append p [] ys = refl
press_all-append p (x ∷ xs) ys = press_all-append (press p x) xs ys

contains-insert_key :
    (a b : ℕ) (ks : List ℕ)
    → contains (insert_key a ks) b ≡ (if a == b then true else contains ks b)
unfolding insert_key
contains-insert_key a b [] = ground arith
contains-insert_key a b (k ∷ ks) = ground (arith, contains-insert_key a b ks)

key-Tracks :
    (st : InputState) (p : Pressed) (input : InputKeyboard) (vk : ℕ) (down : Bool)
    → Tracks st p
    → Tracks (key st input vk down).0 (press_all p (key st input vk down).1)
unfolding key press_all press
key-Tracks st p input vk down h = (
  h.0,
  (λ b.
      ground
        (arith, contains-insert_key vk b st.held_keys, contains-remove vk b st.held_keys, h.1 b)),
)

nothing-Follows : (st : InputState) (p : Pressed) → Tracks st p → Follows p (st, [])
unfolding press_all
nothing-Follows st p h = h

-- One handler's calls behind another's.
append-Follows :
    (p : Pressed) (st : InputState) (xs ys : List Injected)
    → Tracks st (press_all (press_all p xs) ys)
    → Follows p (st, xs ++ ys)
append-Follows p st xs ys h = subst (Tracks st) (sym (press_all-append p xs ys)) h

choose-Follows :
    (p : Pressed) (b : Bool) (r s : InputState × List Injected)
    → Follows p r
    → Follows p s
    → Follows p (if b then r else s)
choose-Follows p true r s h k = h
choose-Follows p false r s h k = k

send_mods-Follows :
    (mods : List (ℕ × ℕ)) (st : InputState) (p : Pressed) (input : InputKeyboard) (down : Bool)
    → Tracks st p
    → Follows p (send_mods mods st input down)
unfolding send_mods
send_mods-Follows [] st p input down h = nothing-Follows st p h
send_mods-Follows ((bit, vk) ∷ mods) st p input down h =
    let skipped : Bool = is_modifier input.scancode || (bit_and input.modifiers bit == 0) in
    let first = if skipped then (st, []) else key st input vk down in
    let tracked : Follows p first =
      choose-Follows p skipped (st, []) (key st input vk down) (nothing-Follows st p h)
        (key-Tracks st p input vk down h) in
    append-Follows p (send_mods mods first.0 input down).0 first.1
      (send_mods mods first.0 input down).1
      (send_mods-Follows mods first.0 (press_all p first.1) input down tracked)

key_down-Follows :
    (st : InputState) (p : Pressed) (input : InputKeyboard)
    → Tracks st p
    → Follows p (key_down st input)
unfolding key_down
key_down-Follows st p input h =
    let before = send_mods k_mods st input true in
    let pressed = key before.0 input input.scancode true in
    append-Follows p pressed.0 before.1 pressed.1 (
      key-Tracks before.0 (press_all p before.1) input input.scancode true
        (send_mods-Follows k_mods st p input true h))

key_up-Follows :
    (st : InputState) (p : Pressed) (input : InputKeyboard)
    → Tracks st p
    → Follows p (key_up st input)
unfolding key_up
key_up-Follows st p input h =
    let released = key st input input.scancode false in
    let after = send_mods k_mods released.0 input false in
    append-Follows p after.0 released.1 after.1 (
      send_mods-Follows k_mods released.0 (press_all p released.1) input false
        (key-Tracks st p input input.scancode false h))

inject_keyboard-Follows :
    (st : InputState) (p : Pressed) (input : InputKeyboard)
    → Tracks st p
    → Follows p (inject_keyboard st input)
unfolding inject_keyboard
inject_keyboard-Follows st p input h =
    choose-Follows p (input.pressed == 0) (key_up st input) (key_down st input)
      (key_up-Follows st p input h) (key_down-Follows st p input h)

inject_mouse-Follows :
    (st : InputState) (p : Pressed) (m : InputMouse) → Tracks st p → Follows p (inject_mouse st m)
unfolding inject_mouse press_all press
inject_mouse-Follows st p m h = (refl, h.1)

release_keys-keys :
    (monitor_id : ℕ) (vks : List ℕ) (p : Pressed) (vk : ℕ)
    → (press_all p (release_keys monitor_id vks)).keys vk
      ≡ (if contains vks vk then false else p.keys vk)
unfolding release_keys press_all press
release_keys-keys monitor_id [] p vk = refl
release_keys-keys monitor_id (k ∷ ks) p vk = ground (
  arith,
  release_keys-keys monitor_id ks
      (press p
        (keyboard (record { monitor_id = monitor_id; scancode = k; pressed = 0; modifiers = 0 })))
      vk,
)

release_keys-buttons :
    (monitor_id : ℕ) (vks : List ℕ) (p : Pressed)
    → (press_all p (release_keys monitor_id vks)).buttons ≡ p.buttons
unfolding release_keys press_all press
release_keys-buttons monitor_id [] p = refl
release_keys-buttons monitor_id (k ∷ ks) p = release_keys-buttons monitor_id ks _

release_input-nothing :
    (st : InputState) (p : Pressed)
    → Tracks st p
    → let p' = press_all p (release_input st).1 in
      (p'.buttons ≡ 0) × ((vk : ℕ) → p'.keys vk ≡ false)
unfolding release_input press_all press
release_input-nothing st p h =
    let monitor_id = st.held_mouse.monitor_id in
    let ups =
      if st.held_mouse.buttons == 0
      then []
      else mouse (record st.held_mouse { buttons = 0; scroll_delta = 0; scroll_delta_h = 0 })
        ∷ [] in
    let p1 : Pressed = press_all p ups in
    let up : p1.buttons ≡ 0 = ground (arith, h.0) in
    let kept : (vk : ℕ) → p1.keys vk ≡ p.keys vk = λ vk. ground arith in
    rw (press_all-append p ups (release_keys monitor_id st.held_keys)) (
      release_keys-buttons monitor_id st.held_keys p1 ∙ up,
      (λ vk. ground (arith, release_keys-keys monitor_id st.held_keys p1 vk, kept vk, h.1 vk)),
    )

-- A request as the handlers meet it: view-only or not, the client that drives, the client that asks.
abbrev pub Asked : Type 0
Asked = Bool × ℕ × ℕ × InputRequest

pub run_input : InputState → List Asked → InputState × List Injected
run_input st [] = (st, [])
run_input st ((view_only, driver, client, request) ∷ asked) =
    let (st', injected) = on_input st view_only driver client request in
    let (st'', rest) = run_input st' asked in (st'', injected ++ rest)

on_input-Follows :
    (st : InputState) (p : Pressed) (view_only : Bool) (driver client : ℕ) (request : InputRequest)
    → Tracks st p
    → Follows p (on_input st view_only driver client request)
unfolding on_input
on_input-Follows st p view_only driver client (mouse_request m) h =
    choose-Follows p _ (inject_mouse st m) (st, []) (inject_mouse-Follows st p m h)
      (nothing-Follows st p h)
on_input-Follows st p view_only driver client (keyboard_request k) h =
    choose-Follows p _ (inject_keyboard st k) (st, []) (inject_keyboard-Follows st p k h)
      (nothing-Follows st p h)

run_input-Follows :
    (st : InputState) (p : Pressed) (asked : List Asked)
    → Tracks st p
    → Follows p (run_input st asked)
unfolding run_input
run_input-Follows st p [] h = nothing-Follows st p h
run_input-Follows st p ((view_only, driver, client, request) ∷ asked) h =
    let first = on_input st view_only driver client request in
    append-Follows p (run_input first.0 asked).0 first.1 (run_input first.0 asked).1 (
      run_input-Follows first.0 (press_all p first.1) asked
        (on_input-Follows st p view_only driver client request h))

-- Whatever keys and buttons the clients' requests leave held down, in any order and from any
-- client: after release_input no mouse button and no key that went through the handlers is down.
pub release_input-run :
    (asked : List Asked)
    → let (st, injected) = run_input initial_input asked in
      let p = press_all (press_all nothing_pressed injected) (release_input st).1 in
      (p.buttons ≡ 0) × ((vk : ℕ) → p.keys vk ≡ false)
release_input-run asked =
    let (st, injected) = run_input initial_input asked in
    release_input-nothing st (press_all nothing_pressed injected)
      (run_input-Follows initial_input nothing_pressed asked (refl, (λ vk. refl)))
