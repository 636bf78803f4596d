-- ===== src/Usb/Notices.antt =====
-- host/src/usb/adb_reverse.cpp: what the host tells of the headsets on a cable.
use immersive.Base.{
  ℕ, ◌≡◌, sym, refl, inl, inr, true, false, List, [], ◌∷◌, codes, pieces, Bool-cases,
}
use mathlib.Core.Path.{subst}
use immersive.Ui.Form.{TextMap, find_text}
use immersive.Usb.{Adb, Tunnel, is_passing, rule_of, scan_lines, keep_round, keep_adb_reverse}
use immersive.Usb.Order.{IsOrdered, scan_lines-IsOrdered}
use immersive.Usb.Told.{told, state_of, shown, told-append, told-round}

-- A reader who knows the headset's state, unless it is a passing one.
Follows : (state serial : List ℕ) → TextMap → Type 0
Follows state serial last = is_passing (state_of serial last) ≡ false → state ≡ state_of serial last

keep_round-Follows :
    (port : ℕ) (adb : Adb) (serial state : List ℕ) (t : Tunnel)
    → Follows state serial t.last
    → Follows
        (told state serial (keep_round port adb t).notices)
        serial
        (keep_round port adb t).tunnel.last
unfolding keep_round Follows told IsOrdered
keep_round-Follows port adb serial state t follows = elim (Bool-cases adb.devices.ok) [
  | inr silence ↦ elim (Bool-cases t.adb_ok) [
    | inl was_ok ↦ rw (silence, was_ok) follows
    | inr was_silent ↦ rw (silence, was_silent) follows
  ]
  | inl ok ↦
      let seen =
        scan_lines adb.run (rule_of port) 0 (pieces 10 adb.devices.out)
          (record { now = []; commands = [] }) in
      let h =
        scan_lines-IsOrdered adb.run (rule_of port) 0 (pieces 10 adb.devices.out)
          (record { now = []; commands = [] }) tt in
      elim (Bool-cases t.adb_ok) [
        | inl was_ok ↦
            rw (ok, was_ok) (λ steady. told-round serial state t.last seen.now h steady follows)
        | inr was_silent ↦
            rw (ok, was_silent) (λ steady. told-round serial state t.last seen.now h steady follows)
      ]
]

keep_adb_reverse-Follows :
    (port : ℕ) (adbs : List Adb) (serial state : List ℕ) (t : Tunnel)
    → Follows state serial t.last
    → Follows
        (told state serial (keep_adb_reverse port adbs t).notices)
        serial
        (keep_adb_reverse port adbs t).tunnel.last
unfolding keep_adb_reverse told
keep_adb_reverse-Follows port [] serial state t follows = follows
keep_adb_reverse-Follows port (adb ∷ adbs) serial state t follows =
    let first = keep_round port adb t in
    let rest = keep_adb_reverse port adbs first.tunnel in
    subst (λ x. Follows x serial rest.tunnel.last)
      (sym (told-append state serial first.notices rest.notices))
      (keep_adb_reverse-Follows port adbs serial (told state serial first.notices) first.tunnel
        (keep_round-Follows port adb serial state t follows))

abbrev pub no_headsets : Tunnel
no_headsets = record { last = []; adb_ok = true }

-- Who follows the notices from the start, and takes a headset without one for gone, knows after any
-- number of rounds the state in which adb showed it in the last round that adb answered, if it is
-- not one of the two passing ones.
pub told-keep_adb_reverse :
    (port : ℕ) (adbs : List Adb) (serial : List ℕ)
    → is_passing (state_of serial (keep_adb_reverse port adbs no_headsets).tunnel.last) ≡ false
    → told (codes "gone") serial (keep_adb_reverse port adbs no_headsets).notices
      ≡ state_of serial (keep_adb_reverse port adbs no_headsets).tunnel.last
unfolding Follows state_of shown find_text
told-keep_adb_reverse port adbs serial =
    keep_adb_reverse-Follows port adbs serial (codes "gone") no_headsets (λ _. refl)
