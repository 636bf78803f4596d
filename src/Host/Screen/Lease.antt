-- ===== src/Host/Screen/Lease.antt =====
-- host/src/main.cpp: the main screen is dark only under a lease.
use immersive.Base.{
  ℕ, ◌+◌, ◌≡◌, ◌≢◌, ◌≤◌, refl, sym, Bool, true, false, ◌||◌, List, [], ◌∷◌, ◌++◌, All, arith,
  if◌then◌else◌,
}
use mathlib.Core.Path.{subst}
use immersive.Protocol.{screen_off_lease_ms}
use immersive.Host.Screen.{
  ScreenState, initial_screen, ScreenEffect, set_primary_off, send_screen_off, light_screen_locked,
  hold_lease, turn_off, turn_on, on_screen_off, watch_screen, ScreenEvent, asks, connects, leaves,
  takes_over, sets_view_only, watches, on_event, run_screen,
}

-- Whether the screen is dark after these calls: set_primary_off(false) lights it, and
-- set_primary_off(true) darkens it if it succeeds.
unfoldable pub is_dark : Bool → List ScreenEffect → Bool
is_dark dark [] = dark
is_dark dark (set_primary_off off ok ∷ effects) =
    is_dark (if off then ok || dark else false) effects
is_dark dark (send_screen_off client_id off ∷ effects) = is_dark dark effects

is_dark-append :
    (dark : Bool) (xs ys : List ScreenEffect)
    → is_dark dark (xs ++ ys) ≡ is_dark (is_dark dark xs) ys
unfolding is_dark
is_dark-append dark [] ys = refl
is_dark-append dark (set_primary_off off ok ∷ xs) ys = is_dark-append _ xs ys
is_dark-append dark (send_screen_off client_id off ∷ xs) ys = is_dark-append dark xs ys

-- A dark screen has an owner, and its lease ends at most ten seconds after `last`.
abbrev pub Leased : ℕ → ScreenState → Bool → Type 0
Leased last st dark =
    (dark ≡ true → st.screen_off_client ≢ 0)
    × (st.screen_off_client ≢ 0 → st.screen_off_until_ms ≤ last + screen_off_lease_ms)

-- Requests are made by clients, whose ids are not 0, up to the time `last`.
abbrev pub AskedBy : ℕ → ScreenEvent → Type 0
AskedBy last (asks client_id off answer now) = (client_id ≢ 0) × (now ≤ last)
AskedBy last _ = Unit

on_event-Leased :
    (last : ℕ) (st : ScreenState) (dark : Bool) (event : ScreenEvent)
    → AskedBy last event
    → Leased last st dark
    → Leased last (on_event st event).0 (is_dark dark (on_event st event).1)
unfolding on_event on_screen_off turn_off turn_on hold_lease light_screen_locked watch_screen
    is_dark
on_event-Leased last st dark (asks client_id off answer now) a h = ground arith
on_event-Leased last st dark connects a h = ground arith
on_event-Leased last st dark (leaves client_id streaming) a h = ground arith
on_event-Leased last st dark (takes_over client_id) a h = h
on_event-Leased last st dark (sets_view_only on) a h = h
on_event-Leased last st dark (watches now) a h = ground arith

run_screen-Leased :
    (last : ℕ) (st : ScreenState) (dark : Bool) (events : List ScreenEvent)
    → All (AskedBy last) events
    → Leased last st dark
    → Leased last (run_screen st events).0 (is_dark dark (run_screen st events).1)
unfolding run_screen is_dark
run_screen-Leased last st dark [] a h = h
run_screen-Leased last st dark (event ∷ events) a h =
    let first = on_event st event in
    subst (Leased last (run_screen first.0 events).0)
      (sym (is_dark-append dark first.1 (run_screen first.0 events).1))
      (run_screen-Leased last first.0 (is_dark dark first.1) events a.1
        (on_event-Leased last st dark event a.0 h))

watch_screen-dark :
    (last : ℕ) (st : ScreenState) (dark : Bool) (now : ℕ)
    → Leased last st dark
    → is_dark dark (watch_screen st now).1 ≡ true
    → (st.view_only ≡ false)
      × (st.screen_off_client ≢ 0)
      × (st.screen_off_client ≡ st.input_client_id)
      × (now ≤ last + screen_off_lease_ms)
unfolding watch_screen light_screen_locked is_dark
watch_screen-dark last st dark now h dim = ground arith

-- Whatever headsets ask, connect, leave and take over in whatever order, no request coming after
-- `last`: if the main screen is still dark after a round of the main loop at `now`, then the host
-- is not view-only, the headset that holds the screen off is the one that drives the PC, and `now`
-- is at most ten seconds after `last`.
pub watch_screen-lease :
    (last now : ℕ) (events : List ScreenEvent)
    → All (AskedBy last) events
    → is_dark
        (is_dark false (run_screen initial_screen events).1)
        (watch_screen (run_screen initial_screen events).0 now).1
      ≡ true
    → ((run_screen initial_screen events).0.view_only ≡ false)
      × ((run_screen initial_screen events).0.screen_off_client ≢ 0)
      × ((run_screen initial_screen events).0.screen_off_client
          ≡ (run_screen initial_screen events).0.input_client_id)
      × (now ≤ last + screen_off_lease_ms)
watch_screen-lease last now events asked dim =
    let (st, effects) = run_screen initial_screen events in
    watch_screen-dark last st (is_dark false effects) now
      (run_screen-Leased last initial_screen false events asked
        ((λ e. absurd (ground arith)), (λ e. absurd (e refl))))
      dim
