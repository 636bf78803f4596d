-- ===== src/Tests/Requests.antt =====
-- The theorems on the host's handlers at concrete inputs.
use immersive.Base.{
  take, ◌/◌, ◌==◌, if◌then◌else◌, ℕ, ◌+◌, ◌*◌, ◌≡◌, ◌≢◌, ◌≤◌, true, false, List, [], ◌∷◌, some,
  none, arith, ltb, lookup, refl,
}
use immersive.Protocol.Messages.{VirtualDisplayCreate, InputMouse, StreamConfig}
use immersive.Host.Input.{initial_input, release_input, keyboard_request}
use immersive.Host.Input.Held.{press_all, nothing_pressed, Asked, run_input, release_input-run}
use immersive.Host.Input.Scale.{Double64, InputScale}
use immersive.Host.Screen.{
  ScreenEvent, asks, takes_over, initial_screen, run_screen, watch_screen, hold_lease, turn_off,
  on_screen_off, on_event,
}
use immersive.Host.Screen.Lease.{is_dark, watch_screen-lease}
use immersive.Host.Audio.{audio_packets}
use immersive.Host.Audio.Samples.{pcm_of, audio_packets-pcm}
use immersive.Host.Displays.{Displays, on_virtual_display_create}
use immersive.Host.Displays.Create.{comes_up, on_virtual_display_create-results}
use immersive.Host.Streams.{HostState, apply_selection_locked, on_stream_config, fresh_stream}
use immersive.Host.Streams.Owner.{
  WellOwned, run_requests, selects, configures, run_requests-WellOwned,
}
use immersive.Host.Streams.Selection.{apply_selection-lookup}
use immersive.Host.Streams.Config.{on_stream_config-lookup}

-- Client 1 presses A with Shift latched, and never lets go.
abbrev shift_a : List Asked
shift_a =
    (
      false,
      1,
      1,
      keyboard_request (record { monitor_id = 0; scancode = 0x41; pressed = 1; modifiers = 1 }),
    )
    ∷ []

release_input-run_example :
    (press_all
      (press_all nothing_pressed (run_input initial_input shift_a).1)
      (release_input (run_input initial_input shift_a).0).1).buttons
    ≡ 0
release_input-run_example = (release_input-run shift_a).0

cut_off : (n x : ℕ) → ltb n x ≡ false → x ≤ n
cut_off n x h = ground arith

-- Whole numbers as doubles.
abbrev whole : Double64
whole = record {
  Double = ℕ;
  of_nat = λ n. n;
  mul = ◌*◌;
  lt = ltb;
  trunc = λ x. x;
  trunc-of_nat = λ n. refl;
  trunc-le = cut_off;
}

abbrev halved : InputScale whole
halved = record { sx = 2; sy = 2; native_w = 1920; native_h = 1080 }

abbrev overshoot : InputMouse
overshoot = record {
  monitor_id = 0;
  x = 5000;
  y = 3;
  buttons = 1;
  scroll_delta = 0;
  scroll_delta_h = 0;
}

-- Client 1 drives and darkens the screen at 100 ms.
abbrev darkened : List ScreenEvent
darkened = takes_over 1 ∷ asks 1 true true 100 ∷ []

watch_screen-lease_example :
    ((run_screen initial_screen darkened).0.view_only ≡ false)
    × ((run_screen initial_screen darkened).0.screen_off_client ≢ 0)
    × ((run_screen initial_screen darkened).0.screen_off_client
        ≡ (run_screen initial_screen darkened).0.input_client_id)
    × (5000 ≤ 100 + 10000)
unfolding is_dark run_screen on_event on_screen_off turn_off hold_lease watch_screen
watch_screen-lease_example =
    watch_screen-lease 100 5000 darkened (tt, (((λ e. absurd (omega arith)), omega arith), tt)) refl

abbrev default_cfg : StreamConfig
default_cfg = record { codec = 255; bitrate_kbps = 0; jpeg_quality = 0; max_width = 0; max_fps = 0 }

abbrev watching : HostState
watching = record {
  active_streams = (0, record { cfg = default_cfg; new_cfg = none; force_keyframe = false }) ∷ [];
  streams_client_id = 1;
  input_client_id = 1;
  input = initial_input;
  stream_cfg = default_cfg;
  displays = 0 ∷ 1 ∷ [];
}

apply_selection-lookup_example :
    lookup 1 (apply_selection_locked watching 2 (1 ∷ [])).0.active_streams
    ≡ some (fresh_stream default_cfg)
apply_selection-lookup_example = (apply_selection-lookup watching 2 (1 ∷ []) 1).0

on_stream_config-lookup_example :
    lookup 0 (on_stream_config watching 2 (record default_cfg { codec = 2 })).0.active_streams
    ≡ lookup 0 watching.active_streams
on_stream_config-lookup_example =
    (on_stream_config-lookup watching 2 (record default_cfg { codec = 2 }) 0).0

-- One virtual display, 100, that client 1 watches beside monitor 0.
abbrev with_virtual : Displays
with_virtual = record {
  host = record watching {
    active_streams =
        (0, record { cfg = default_cfg; new_cfg = none; force_keyframe = false })
        ∷ (100, record { cfg = default_cfg; new_cfg = none; force_keyframe = false })
        ∷ [];
  };
  vdm_ok = true;
  active = 100 ∷ [];
}

abbrev wanted : VirtualDisplayCreate
wanted = record { width = 2561; height = 100; refresh_rate = 0 }

on_virtual_display_create-results_example :
    (on_virtual_display_create with_virtual 1 wanted 101 (λ i. i == 2) []).0.active
    ≡ (if comes_up with_virtual 101 (λ i. i == 2) then 100 ∷ 101 ∷ [] else 100 ∷ [])
on_virtual_display_create-results_example =
    (on_virtual_display_create-results with_virtual 1 wanted 101 (λ i. i == 2) [] refl
      (omega arith)).0

-- Two frames and a half of stereo.
abbrev sound : List ℕ
sound = 1 ∷ 2 ∷ 3 ∷ 4 ∷ 5 ∷ []

audio_packets-pcm_example : pcm_of (audio_packets 1 7 2 sound) ≡ take (5 / 2 * 2) sound
audio_packets-pcm_example =
    (audio_packets-pcm 1 7 2 sound (λ e. absurd (omega arith)) (λ e. absurd (omega arith))).0

abbrev idle_host : HostState
idle_host = record watching { active_streams = []; input_client_id = 0 }

run_requests-WellOwned_example : WellOwned (
    run_requests idle_host
      (selects 2 (0 ∷ 1 ∷ []) ∷ configures 2 default_cfg ∷ selects 3 (1 ∷ []) ∷ []))
run_requests-WellOwned_example =
    run_requests-WellOwned idle_host
      (selects 2 (0 ∷ 1 ∷ []) ∷ configures 2 default_cfg ∷ selects 3 (1 ∷ []) ∷ []) refl refl
