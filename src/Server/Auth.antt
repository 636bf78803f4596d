-- ===== src/Server/Auth.antt =====
-- host/src/network/server.cpp: check_pin, AuthState, kicked_ and the verdict on a HELLO.
-- Addresses are IPv4 addresses as numbers; `now` is the steady clock.
pub mod Guessing
use immersive.Base.{
  ℕ, suc, ◌+◌, ◌≡◌, ◌≢◌, ◌≤◌, ◌<◌, ◌⊎◌, ◌↔◌, inl, inr, Bool, true, false, ◌||◌, List, [], ◌∷◌,
  arith, ltb, leb, ◌==◌, if◌then◌else◌, lookup_or, insert, lookup_or-insert, secs, contains, remove,
  contains-remove, refl,
}
use immersive.Protocol.{reject_pin_required, reject_wrong_pin, reject_locked_out}

pub record AuthState : Type 0 where
  pub failures : ℕ
  pub locked_until : ℕ

abbrev pub fresh : AuthState
fresh = record { failures = 0; locked_until = 0 }

-- The members of NetworkServer that auth_mutex_ guards, and pin_.
pub record Auth : Type 0 where
  pub pin : ℕ
  pub auth_failures : List (ℕ × AuthState)
  pub kicked : List ℕ

-- 127.0.0.1
abbrev pub inaddr_loopback : ℕ
inaddr_loopback = 0x7F000001

abbrev pub state_of : Auth → ℕ → AuthState
state_of a peer = lookup_or fresh peer a.auth_failures

abbrev store : Auth → ℕ → AuthState → Auth
store a peer st = record a { auth_failures = insert peer st a.auth_failures }

-- The reason (0 accepts), how long the handler sleeps before it answers, and the new state.
pub record Verdict : Type 0 where
  pub reason : ℕ
  pub sleep_ms : ℕ
  pub auth : Auth

-- A wrong PIN: the fifth in a row locks the address for a minute.
count_failure : Auth → ℕ → AuthState → ℕ → Auth
count_failure a peer st now =
    if leb 5 (st.failures + 1)
    then store a peer (record { failures = 0; locked_until = now + secs 60 })
    else store a peer (record st { failures = st.failures + 1 })

pub check_pin : Auth → ℕ → ℕ → ℕ → Verdict
unfolding count_failure
check_pin a peer pin now =
    if a.pin == 0 || peer == inaddr_loopback
    then record { reason = 0; sleep_ms = 0; auth = a }
    else let st = state_of a peer in
      if ltb now st.locked_until
      then record { reason = reject_locked_out; sleep_ms = 0; auth = store a peer st }
      else if pin == a.pin
      then record { reason = 0; sleep_ms = 0; auth = store a peer (record st { failures = 0 }) }
      else if pin == 0
      then record { reason = reject_pin_required; sleep_ms = 0; auth = store a peer st }
      else record { reason = reject_wrong_pin; sleep_ms = 500; auth = count_failure a peer st now }

-- The verdict on a HELLO: a peer that the panel disconnected is asked for the PIN once.
pub judge_hello : Auth → ℕ → ℕ → ℕ → Verdict
judge_hello a peer pin now =
    let a' = record a { kicked = remove peer a.kicked } in
    if contains a.kicked peer
    then record { reason = reject_pin_required; sleep_ms = 0; auth = a' }
    else check_pin a' peer pin now

-- disconnect_client marks the address.
pub kick : Auth → ℕ → Auth
kick a peer = record a { kicked = peer ∷ a.kicked }

-- A HELLO passes the PIN check exactly when the host has no PIN, or it comes from 127.0.0.1, or
-- its address is not locked out and it carries the host's PIN.
pub check_pin_iff :
    (a : Auth) (peer pin now : ℕ)
    → ((check_pin a peer pin now).reason ≡ 0) ↔ (
        (a.pin ≡ 0)
        ⊎ (peer ≡ inaddr_loopback)
        ⊎ (((state_of a peer).locked_until ≤ now) × (pin ≡ a.pin)))
unfolding check_pin
check_pin_iff a peer pin now = ground arith

-- Whatever it carries, the first HELLO from an address that disconnect_client marked is refused
-- with PIN_REQUIRED and counts no failure; the next one is judged as if the address had never
-- been marked.
pub judge_hello-kick :
    (a : Auth) (peer pin now pin' now' : ℕ)
    → let first = judge_hello (kick a peer) peer pin now in
      (first.reason ≡ reject_pin_required)
      × (first.auth.auth_failures ≡ a.auth_failures)
      × ((judge_hello first.auth peer pin' now').reason ≡ (check_pin a peer pin' now').reason)
unfolding judge_hello kick check_pin
judge_hello-kick a peer pin now pin' now' = ground (arith, contains-remove peer peer a.kicked)
