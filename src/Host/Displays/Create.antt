-- ===== src/Host/Displays/Create.antt =====
-- host/src/main.cpp: a virtual display is made whole or not at all.
use immersive.Base.{
  ℕ, ◌%◌, ◌≡◌, ◌≤◌, Bool, true, false, not, ◌&&◌, List, [], ◌∷◌, ◌++◌, arith, ltb, ◌==◌,
  if◌then◌else◌, length, length-append, append-nil, contains, remove,
}
use immersive.Protocol.{max_virtual_displays}
use immersive.Protocol.Messages.{VirtualDisplayCreate}
use immersive.Host.Displays.{
  Displays, vdisplay_ok, DisplayEffect, sent_vresult, monitor_list_broadcast, clamp, display_config,
  wait_listed, try_create, on_virtual_display_create,
}

-- Whatever size and rate a headset asks for, the driver is asked for an even width from 640 to
-- 7680, an even height from 480 to 4320 and 24 to 144 Hz.
pub display_config-bounds :
    (req : VirtualDisplayCreate)
    → let c = display_config req in
      ((640 ≤ c.width) × (c.width ≤ 7680) × (c.width % 2 ≡ 0))
      × ((480 ≤ c.height) × (c.height ≤ 4320) × (c.height % 2 ≡ 0))
      × ((24 ≤ c.refresh_rate) × (c.refresh_rate ≤ 144))
unfolding display_config clamp
display_config-bounds req = ground arith

append_nil-remove : (id : ℕ) (xs : List ℕ) → contains xs id ≡ false → remove id (xs ++ id ∷ []) ≡ xs
append_nil-remove id [] h = ground arith
append_nil-remove id (x ∷ xs) h = ground (arith, append_nil-remove id xs)

-- Whether the driver's display of that id comes up: the driver works, there is room, it is made,
-- and an enumeration finds it in time.
pub comes_up : Displays → ℕ → (ℕ → Bool) → Bool
comes_up d id lists =
    d.vdm_ok
    && ltb (length d.active) max_virtual_displays
    && not (id == 0)
    && wait_listed 30 0 lists

-- The results sent: to whom, whether it is VDISPLAY_OK, and the display's id.
pub results : List DisplayEffect → List (ℕ × Bool × ℕ)
results [] = []
results (sent_vresult client_id vdisplay_ok removed id ∷ effects) =
    (client_id, true, id) ∷ results effects
results (sent_vresult client_id status removed id ∷ effects) =
    (client_id, false, id) ∷ results effects
results (e ∷ effects) = results effects

pub is_broadcast : List DisplayEffect → Bool
is_broadcast [] = false
is_broadcast (monitor_list_broadcast ∷ effects) = true
is_broadcast (e ∷ effects) = is_broadcast effects

-- A virtual display is made whole or not at all: if it comes up, the driver has one more and the
-- monitor list is sent to all; if not, the driver's displays are as before, also when it made one
-- that was never listed. The client that asked gets exactly one result, with the display's id or
-- 0xFF. There are never more than four. The driver's ids are not taken twice.
pub on_virtual_display_create-results :
    (d : Displays) (client_id : ℕ) (req : VirtualDisplayCreate) (id : ℕ) (lists : ℕ → Bool)
    (fresh : List ℕ)
    → contains d.active id ≡ false
    → length d.active ≤ 4
    → let r = on_virtual_display_create d client_id req id lists fresh in
      let up = comes_up d id lists in
      (r.0.active ≡ (if up then d.active ++ id ∷ [] else d.active))
      × (length r.0.active ≤ 4)
      × (results r.1 ≡ (client_id, up, if up then id else 0xFF) ∷ [])
      × (is_broadcast r.1 ≡ up)
unfolding on_virtual_display_create try_create comes_up results is_broadcast
on_virtual_display_create-results d client_id req id lists fresh apart few = ground (
  arith,
  append_nil-remove id d.active apart,
  length-append d.active (id ∷ []),
  append-nil d.active,
)
