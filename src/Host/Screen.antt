-- ===== src/Host/Screen.antt =====
-- host/src/main.cpp: "Main screen off", the lease under which a headset darkens the main monitor.
-- What set_primary_off(true) answers is given with each request.
pub mod Lease
use immersive.Base.{
  ℕ, ◌+◌, Bool, true, false, not, ◌&&◌, ◌||◌, List, [], ◌∷◌, ◌++◌, ltb, ◌==◌, if◌then◌else◌,
}
use immersive.Protocol.{screen_off_lease_ms}

-- The variables that decide on the screen; a client id of 0 means none.
pub record ScreenState : Type 0 where
  pub screen_off_client : ℕ
  pub screen_off_until_ms : ℕ
  pub input_client_id : ℕ
  pub view_only : Bool

abbrev pub initial_screen : ScreenState
initial_screen = record {
  screen_off_client = 0;
  screen_off_until_ms = 0;
  input_client_id = 0;
  view_only = false;
}

-- set_primary_off with its answer, and SCREEN_OFF to a client.
pub data ScreenEffect : Type 0 where
  set_primary_off : Bool → Bool → ScreenEffect
  send_screen_off : ℕ → Bool → ScreenEffect

unfoldable pub light_screen_locked : ScreenState → ScreenState × List ScreenEffect
light_screen_locked st = if st.screen_off_client == 0 then (st, []) else (
  record st { screen_off_client = 0 },
  set_primary_off false true ∷ send_screen_off st.screen_off_client false ∷ [],
)

-- The lease is taken or renewed.
unfoldable pub hold_lease : ScreenState → ℕ → ℕ → ScreenState × List ScreenEffect
hold_lease st client_id now = (
  record st { screen_off_client = client_id; screen_off_until_ms = now + screen_off_lease_ms },
  if st.screen_off_client == client_id then [] else send_screen_off client_id true ∷ [],
)

-- A request to turn the screen off, from the client that drives.
unfoldable pub turn_off : ScreenState → ℕ → Bool → ℕ → ScreenState × List ScreenEffect
unfolding hold_lease
turn_off st client_id answer now =
    let (st', effects) = hold_lease st client_id now in
    if not (st.screen_off_client == 0)
    then (st', set_primary_off true answer ∷ effects)
    else if st.view_only
    then (st, send_screen_off client_id false ∷ [])
    else if answer
    then (st', set_primary_off true answer ∷ effects)
    else (st, set_primary_off true answer ∷ send_screen_off client_id false ∷ [])

pub turn_on : ScreenState → ℕ → ScreenState × List ScreenEffect
turn_on st client_id =
    let (st', effects) = light_screen_locked st in
    (
      st',
      effects
          ++ (if st.screen_off_client == client_id
              then []
              else send_screen_off client_id false ∷ []),
    )

-- set_on_screen_off
unfoldable pub on_screen_off : ScreenState → ℕ → Bool → Bool → ℕ → ScreenState × List ScreenEffect
on_screen_off st client_id off answer now =
    if not (client_id == st.input_client_id)
    then (st, send_screen_off client_id false ∷ [])
    else if off
    then turn_off st client_id answer now
    else turn_on st client_id

-- One round of the main loop.
unfoldable pub watch_screen : ScreenState → ℕ → ScreenState × List ScreenEffect
watch_screen st now =
    if not (st.screen_off_client == 0)
      && (st.view_only
          || not (st.screen_off_client == st.input_client_id)
          || ltb st.screen_off_until_ms now)
    then light_screen_locked st
    else (st, [])

-- What happens to the screen's state: a request at a time, a headset that connects, one that
-- leaves (with whether it was the streaming one), one that takes over, the settings, a round of
-- the main loop.
pub data ScreenEvent : Type 0 where
  asks : ℕ → Bool → Bool → ℕ → ScreenEvent
  connects : ScreenEvent
  leaves : ℕ → Bool → ScreenEvent
  takes_over : ℕ → ScreenEvent
  sets_view_only : Bool → ScreenEvent
  watches : ℕ → ScreenEvent

unfoldable pub on_event : ScreenState → ScreenEvent → ScreenState × List ScreenEffect
on_event st (asks client_id off answer now) = on_screen_off st client_id off answer now
on_event st connects = light_screen_locked st
on_event st (leaves client_id streaming) =
    let (st', effects) =
      if client_id == st.screen_off_client then light_screen_locked st else (st, []) in
    (if streaming then record st' { input_client_id = 0 } else st', effects)
on_event st (takes_over client_id) = (record st { input_client_id = client_id }, [])
on_event st (sets_view_only on) = (record st { view_only = on }, [])
on_event st (watches now) = watch_screen st now

unfoldable pub run_screen : ScreenState → List ScreenEvent → ScreenState × List ScreenEffect
run_screen st [] = (st, [])
run_screen st (event ∷ events) =
    let (st', effects) = on_event st event in
    let (st'', rest) = run_screen st' events in (st'', effects ++ rest)
