-- ===== src/Host/Displays.antt =====
-- host/src/main.cpp: virtual displays, from a headset's request to the driver and the monitor list.
-- What the driver answers and what each enumeration of the displays finds are given with a call.
pub mod Create
pub mod Remove
use immersive.Base.{
  ℕ, zero, suc, ◌+◌, ◌*◌, ◌/◌, ◌<◌, min, max, Bool, true, false, not, ◌&&◌, List, [], ◌∷◌, ◌++◌,
  leb, ltb, ◌==◌, if◌then◌else◌, length, contains, remove,
}
use immersive.Protocol.{max_virtual_displays}
use immersive.Protocol.Messages.{VirtualDisplayCreate}
use immersive.Host.Streams.{HostState, HostEffect, ids_of, is_streaming, apply_selection_locked}

-- VDISPLAY_*
pub data Status : Type 0 where
  vdisplay_ok vdisplay_unsupported vdisplay_failed vdisplay_limit : Status

-- The host with its driver: whether it works here, and its active displays.
pub record Displays : Type 0 where
  pub host : HostState
  pub vdm_ok : Bool
  pub active : List ℕ

-- VirtualDisplayConfig
pub record DisplayConfig : Type 0 where
  pub width : ℕ
  pub height : ℕ
  pub refresh_rate : ℕ

pub data DisplayEffect : Type 0 where
  created_display : DisplayConfig → DisplayEffect
  removed_display : ℕ → DisplayEffect
  sent_vresult : ℕ → Status → Bool → ℕ → DisplayEffect
  monitor_list_broadcast : DisplayEffect
  streams_changed : List HostEffect → DisplayEffect

-- std::clamp
pub clamp : ℕ → ℕ → ℕ → ℕ
clamp n low high = if ltb n low then low else if ltb high n then high else n

-- Even sizes, within what every backend accepts; 60 Hz unless a rate is asked.
pub display_config : VirtualDisplayCreate → DisplayConfig
unfolding clamp
display_config req = record {
  width = clamp req.width 640 7680 / 2 * 2;
  height = clamp req.height 480 4320 / 2 * 2;
  refresh_rate = if req.refresh_rate == 0 then 60 else clamp req.refresh_rate 24 144;
}

-- The loop that waits for the new monitor: `lists i` tells whether the refresh of round `i` finds
-- it, and the last of the rounds is not waited for.
pub wait_listed : ℕ → ℕ → (ℕ → Bool) → Bool
wait_listed zero i lists = lists i
wait_listed (suc left) i lists =
    let later = wait_listed left (i + 1) lists in if lists i then true else later

-- create_display and what follows: the driver answers `id`, 0 if it failed.
pub try_create :
    Displays → ℕ → DisplayConfig → ℕ → (ℕ → Bool) → List ℕ → Displays × List DisplayEffect
unfolding wait_listed
try_create d client_id config id lists fresh =
    let listed = not (id == 0) && wait_listed 30 0 lists in
    let refreshed = record d { host = record d.host { displays = fresh } } in
    let with_new = record refreshed { active = d.active ++ (if id == 0 then [] else id ∷ []) } in
    let without = record with_new {
      active = if id == 0 then with_new.active else remove id with_new.active;
    } in
    if listed
    then (
      with_new,
      created_display config
          ∷ sent_vresult client_id vdisplay_ok false id
          ∷ monitor_list_broadcast
          ∷ [],
    )
    else (
      without,
      created_display config
          ∷ ((if id == 0 then [] else removed_display id ∷ [])
              ++ sent_vresult client_id vdisplay_failed false 0xFF ∷ []),
    )

-- set_on_virtual_display_create; `fresh` is what the last refresh finds.
pub on_virtual_display_create :
    Displays → ℕ → VirtualDisplayCreate → ℕ → (ℕ → Bool) → List ℕ → Displays × List DisplayEffect
on_virtual_display_create d client_id req id lists fresh =
    if not d.vdm_ok
    then (d, sent_vresult client_id vdisplay_unsupported false 0xFF ∷ [])
    else if leb max_virtual_displays (length d.active)
    then (d, sent_vresult client_id vdisplay_limit false 0xFF ∷ [])
    else try_create d client_id (display_config req) id lists fresh

-- remove_virtual_locked; its stream is stopped first.
pub remove_virtual_locked : Displays → ℕ → List ℕ → Bool × Displays × List DisplayEffect
remove_virtual_locked d id fresh =
    let streaming = contains (ids_of d.host.active_streams) id in
    let keep = remove id (ids_of d.host.active_streams) in
    let (stopped, changes) = apply_selection_locked d.host d.host.streams_client_id keep in
    let host = if streaming then stopped else d.host in
    if not (contains d.active id) then (false, d, []) else (
      true,
      record d { host = record host { displays = fresh }; active = remove id d.active },
      (if streaming then streams_changed changes ∷ [] else []) ++ removed_display id ∷ [],
    )

-- set_on_virtual_display_remove
pub on_virtual_display_remove : Displays → ℕ → ℕ → List ℕ → Displays × List DisplayEffect
on_virtual_display_remove d client_id id fresh =
    let (removed, d', effects) = remove_virtual_locked d id fresh in
    (
      d',
      if removed
          then effects ++ sent_vresult client_id vdisplay_ok true id ∷ monitor_list_broadcast ∷ []
          else sent_vresult client_id (if d.vdm_ok then vdisplay_failed else vdisplay_unsupported)
              true id
            ∷ [],
    )
