-- ===== src/Server/Auth/Guessing.antt =====
-- host/src/network/server.cpp: how many wrong PINs check_pin answers in a given time.
use immersive.Base.{
  ℕ, ◌+◌, ◌-◌, ◌*◌, ◌/◌, ◌≡◌, ◌≢◌, ◌≤◌, ◌<◌, ◌⊎◌, inl, inr, false, List, [], ◌∷◌, arith, leb, ◌==◌,
  ◌&&◌, max, if◌then◌else◌, lookup_or-insert, secs, refl, Bool-cases, ◌∙◌, sym, ==_iff,
}
use mathlib.Core.Path.{subst}
use immersive.Protocol.{reject_wrong_pin}
use immersive.Server.Auth.{Auth, AuthState, fresh, check_pin, state_of, inaddr_loopback}

pub record Attempt : Type 0 where
  pub peer : ℕ
  pub guess : ℕ
  pub now : ℕ

-- The answers REJECT_WRONG_PIN that an address gets in a sequence of attempts from any addresses.
pub wrong_answers : ℕ → Auth → List Attempt → ℕ
wrong_answers p a [] = 0
wrong_answers p a (t ∷ ts) =
    let v = check_pin a t.peer t.guess t.now in
    (if t.peer == p && v.reason == reject_wrong_pin then 1 else 0) + wrong_answers p v.auth ts

-- The attempts come in order, between two points of time.
abbrev pub Between : ℕ → ℕ → List Attempt → Type 0
Between start end [] = start ≤ end
Between start end (t ∷ ts) = (start ≤ t.now) × Between t.now end ts

-- No attempt from the address has the PIN.
abbrev pub GuessesWrong : ℕ → ℕ → List Attempt → Type 0
GuessesWrong p pin [] = Unit
GuessesWrong p pin (t ∷ ts) = (t.peer ≡ p → t.guess ≢ pin) × GuessesWrong p pin ts

next_state : AuthState → ℕ → AuthState
next_state st now =
    if leb 5 (st.failures + 1)
    then record { failures = 0; locked_until = now + secs 60 }
    else record st { failures = st.failures + 1 }

module _ (a : Auth) (peer guess now : ℕ) where
  check_pin-pin : (check_pin a peer guess now).auth.pin ≡ a.pin
  unfolding check_pin
  check_pin-pin = ground arith

  check_pin-other :
      (p : ℕ) → (peer == p) ≡ false → state_of (check_pin a peer guess now).auth p ≡ state_of a p
  unfolding check_pin
  check_pin-other p e = ground (
    arith,
    lookup_or-insert fresh peer p (state_of a peer) a.auth_failures,
    lookup_or-insert fresh peer p (record (state_of a peer) { failures = 0 }) a.auth_failures,
    lookup_or-insert fresh peer p (record { failures = 0; locked_until = now + secs 60 })
        a.auth_failures,
    lookup_or-insert fresh peer p
        (record (state_of a peer) { failures = (state_of a peer).failures + 1 }) a.auth_failures,
  )

  -- What a guess that is not the PIN does to the state of its own address.
  check_pin-own :
      a.pin ≢ 0
      → peer ≢ inaddr_loopback
      → guess ≢ a.pin
      → (((check_pin a peer guess now).reason == reject_wrong_pin) ≡ false)
          × (state_of (check_pin a peer guess now).auth peer ≡ state_of a peer)
        ⊎ (((check_pin a peer guess now).reason ≡ reject_wrong_pin)
            × ((state_of a peer).locked_until ≤ now)
            × (state_of (check_pin a peer guess now).auth peer ≡ next_state (state_of a peer) now))
  unfolding check_pin next_state
  check_pin-own set remote wrong = ground (
    arith,
    lookup_or-insert fresh peer peer (state_of a peer) a.auth_failures,
    lookup_or-insert fresh peer peer (record { failures = 0; locked_until = now + secs 60 })
        a.auth_failures,
    lookup_or-insert fresh peer peer
        (record (state_of a peer) { failures = (state_of a peer).failures + 1 }) a.auth_failures,
  )

-- The minutes of lockout between `w` more wrong answers from a state fit before `end`.
abbrev Bounded : AuthState → ℕ → ℕ → ℕ → Type 0
Bounded st start end w =
    (w ≡ 0) ⊎ ((w + st.failures - 1) / 5 * secs 60 + max st.locked_until start ≤ end)

Bounded-earlier :
    (st : AuthState) (start now end w : ℕ)
    → start ≤ now
    → Bounded st now end w
    → Bounded st start end w
Bounded-earlier st start now end w le (inl h) = inl h
Bounded-earlier st start now end w le (inr h) = inr (omega arith)

Bounded-failure :
    (st : AuthState) (start now end w : ℕ)
    → start ≤ now
    → now ≤ end
    → st.locked_until ≤ now
    → st.failures < 5
    → Bounded (next_state st now) now end w
    → Bounded st start end (1 + w)
unfolding next_state
Bounded-failure st start now end w le before open_ few h =
    elim (Bool-cases (leb 5 (st.failures + 1))) [
      | inl full ↦ ground arith
      | inr more ↦ ground arith
    ]

next_state-few : (st : AuthState) (now : ℕ) → st.failures < 5 → (next_state st now).failures < 5
unfolding next_state
next_state-few st now few = ground arith

Between-le : (start end : ℕ) (ts : List Attempt) → Between start end ts → start ≤ end
Between-le start end [] h = h
Between-le start end (t ∷ ts) h = omega (arith, Between-le t.now end ts h.1)

module _ (a : Auth) (guess now start end w : ℕ) (le : start ≤ now) (before : now ≤ end) where
  -- One attempt from the address itself.
  Bounded-hit :
      (peer : ℕ)
      → a.pin ≢ 0
      → peer ≢ inaddr_loopback
      → guess ≢ a.pin
      → (state_of a peer).failures < 5
      → let v = check_pin a peer guess now in
        ((state_of v.auth peer).failures < 5 → Bounded (state_of v.auth peer) now end w)
        → Bounded (state_of a peer) start end ((if v.reason == reject_wrong_pin then 1 else 0) + w)
  Bounded-hit peer set remote wrong few rest =
      elim (check_pin-own a peer guess now set remote wrong) [
        | inl (quiet, kept) ↦
            rw (quiet, let e : 0 + w ≡ w = omega arith in e)
              (Bounded-earlier (state_of a peer) start now end w le (
                subst (λ st. Bounded st now end w) kept
                  (rest (subst (λ (st : AuthState). st.failures < 5) (sym kept) few))))
        | inr (counted, open_, moved) ↦ rw ((==_iff _ _).1 counted) (
            Bounded-failure (state_of a peer) start now end w le before open_ few (
              subst (λ st. Bounded st now end w) moved
                (rest (
                  subst (λ (st : AuthState). st.failures < 5) (sym moved)
                    (next_state-few (state_of a peer) now few)))))
      ]

  -- One attempt from any address, as the address `p` sees it.
  Bounded-step :
      (p peer : ℕ)
      → a.pin ≢ 0
      → p ≢ inaddr_loopback
      → (peer ≡ p → guess ≢ a.pin)
      → (state_of a p).failures < 5
      → let v = check_pin a peer guess now in
        ((state_of v.auth p).failures < 5 → Bounded (state_of v.auth p) now end w)
        → Bounded
            (state_of a p)
            start
            end
            ((if peer == p && v.reason == reject_wrong_pin then 1 else 0) + w)
  Bounded-step p peer set remote wrong few rest = elim (Bool-cases (peer == p)) [
    | inl hit ↦
        let e : peer ≡ p = (==_iff _ _).0 hit in
        rw hit (
          subst
            (λ q.
              Bounded (state_of a q) start end
                ((if (check_pin a peer guess now).reason == reject_wrong_pin then 1 else 0) + w))
            e
            (Bounded-hit peer set (λ r. remote (sym e ∙ r)) (wrong e)
              (subst (λ q. (state_of a q).failures < 5) (sym e) few)
              (subst
                (λ q.
                  (state_of (check_pin a peer guess now).auth q).failures < 5
                  → Bounded (state_of (check_pin a peer guess now).auth q) now end w)
                (sym e) rest)))
    | inr miss ↦
        let kept : state_of (check_pin a peer guess now).auth p ≡ state_of a p =
          check_pin-other a peer guess now p miss in
        rw (miss, let e : 0 + w ≡ w = omega arith in e)
          (Bounded-earlier (state_of a p) start now end w le (
            subst (λ st. Bounded st now end w) kept
              (rest (subst (λ (st : AuthState). st.failures < 5) (sym kept) few))))
  ]

module _ (p pin : ℕ) (set : pin ≢ 0) (remote : p ≢ inaddr_loopback) (end : ℕ) where
  wrong_answers-Bounded :
      (a : Auth) (start : ℕ) (ts : List Attempt)
      → a.pin ≡ pin
      → (state_of a p).failures < 5
      → Between start end ts
      → GuessesWrong p pin ts
      → Bounded (state_of a p) start end (wrong_answers p a ts)
  unfolding wrong_answers
  wrong_answers-Bounded a start [] same few inside wrong = inl refl
  wrong_answers-Bounded a start (t ∷ ts) same few inside wrong =
      let v = check_pin a t.peer t.guess t.now in
      Bounded-step a t.guess t.now start end (wrong_answers p v.auth ts) inside.0
        (Between-le t.now end ts inside.1) p t.peer (rw same set) remote
        (λ e q. wrong.0 e (q ∙ same)) few
        (λ few'.
          wrong_answers-Bounded v.auth t.now ts (check_pin-pin a t.peer t.guess t.now ∙ same) few'
            inside.1 wrong.1)

-- However the attempts of all addresses interleave, an address other than 127.0.0.1 that never
-- sends the PIN gets at most five wrong-PIN answers for each minute begun, from a start at
-- which it has no failure and no lockout on record.
pub wrong_answers-rate :
    (p : ℕ) (a : Auth) (start minutes : ℕ) (ts : List Attempt)
    → a.pin ≢ 0
    → p ≢ inaddr_loopback
    → state_of a p ≡ fresh
    → Between start (start + minutes * secs 60) ts
    → GuessesWrong p a.pin ts
    → wrong_answers p a ts ≤ 5 * (minutes + 1)
wrong_answers-rate p a start minutes ts set remote clean inside wrong =
    let w : ℕ = wrong_answers p a ts in
    let few : (state_of a p).failures < 5 = rw clean (omega arith) in
    let bounded : Bounded fresh start (start + minutes * secs 60) w =
      subst (λ st. Bounded st start (start + minutes * secs 60) w) clean
        (wrong_answers-Bounded p a.pin set remote (start + minutes * secs 60) a start ts refl few
          inside wrong) in
    omega (arith, bounded)
