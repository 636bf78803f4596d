-- ===== src/Server/Flow/Queue.antt =====
-- host/src/network/server.cpp: when send_video_packet drops a frame of a TCP client.
use immersive.Base.{
  ℕ, ◌-◌, ◌%◌, ◌<◌, ◌≡◌, ◌≢◌, ◌↔◌, refl, Bool, true, not, List, [], ◌∷◌, Option, none, some, arith,
  leb, if◌then◌else◌, ms, Bool-cases, inl, inr,
}
use mathlib.Core.Path.{subst}
use immersive.Server.Rate.{rate_on_sent, Float32}
use immersive.Server.Flow.{
  FlowState, Link, flow_of, unacked_of, flow_on_sent, pop_acked, purged, is_stuck, admit_frame,
  over_udp, over_tcp, dropped,
}

-- The oldest frame of a queue that is not acknowledged.
abbrev pub oldest_pending : ℕ → List ℕ → Option ℕ
oldest_pending last_ack [] = none
oldest_pending last_ack (x ∷ xs) =
    let rest = oldest_pending last_ack xs in if leb x last_ack then rest else some x

-- The time in its slot is more than 150 ms ago.
abbrev pub Overdue : FlowState → ℕ → Option ℕ → Type 0
Overdue flow now none = ⊥
Overdue flow now (some x) = ms 150 < now - flow.sent_at (x % 128)

is_stuck-pop_acked :
    (flow : FlowState) (xs : List ℕ) (now : ℕ)
    → (is_stuck flow (pop_acked flow.last_ack xs) now ≡ true)
      ↔ Overdue flow now (oldest_pending flow.last_ack xs)
unfolding is_stuck pop_acked
is_stuck-pop_acked flow [] now = ((λ h. cc), (λ h. absurd h))
is_stuck-pop_acked flow (x ∷ xs) now = elim (Bool-cases (leb x flow.last_ack)) [
  | inl acked ↦ rw (acked, pop_acked, oldest_pending) (is_stuck-pop_acked flow xs now)
  | inr waits ↦ ground arith
]

is_stuck-purged :
    (flow : FlowState) (xs : List ℕ) (now : ℕ)
    → (is_stuck flow (purged flow xs) now ≡ true)
      ↔ ((flow.ack_seen ≡ true) × Overdue flow now (oldest_pending flow.last_ack xs))
unfolding purged is_stuck
is_stuck-purged flow xs now = elim (Bool-cases flow.ack_seen) [
  | inl seen ↦
      let (to, from) = is_stuck-pop_acked flow xs now in
      rw seen ((λ h. (refl, to h)), (λ h. from h.1))
  | inr unseen ↦ rw unseen (unfold pop_acked in ((λ h. cc), (λ h. cc h.0)))
]

module _ (fl : Float32) (l : Link fl.Float) (tcp_media : Bool) (monitor frame now : ℕ) where
  -- The flow state of the monitor once the frame is entered in it.
  abbrev pub entered : FlowState
  entered = flow_on_sent (flow_of l monitor) frame now

  -- What the call decides, by the queue alone.
  admit_frame-sending : (admit_frame fl l tcp_media monitor frame now).1 ≡ (
      if not tcp_media
      then over_udp
      else if is_stuck entered (purged entered (unacked_of l monitor)) now
      then dropped
      else over_tcp)
  unfolding admit_frame
  admit_frame-sending = ground arith

  -- A frame is dropped exactly when the client takes its video over TCP, has acknowledged a frame
  -- of this stream, and the time that stands in the slot of the oldest frame it has not
  -- acknowledged, the slot of its number modulo 128, is more than 150 ms ago: however many frames
  -- wait, their number does not count.
  pub admit_frame-dropped_iff : ((admit_frame fl l tcp_media monitor frame now).1 ≡ dropped) ↔ (
      (tcp_media ≡ true)
      × (entered.ack_seen ≡ true)
      × Overdue entered now (oldest_pending entered.last_ack (unacked_of l monitor)))
  admit_frame-dropped_iff =
      let stuck : Bool = is_stuck entered (purged entered (unacked_of l monitor)) now in
      let (to, from) = is_stuck-purged entered (unacked_of l monitor) now in
      (
        (λ h.
            let e : (tcp_media ≡ true) × (stuck ≡ true) = ground (arith, admit_frame-sending) in
            (e.0, (to e.1).0, (to e.1).1)),
        (λ h. let e : stuck ≡ true = from (h.1, h.2) in ground (arith, admit_frame-sending)),
      )

  pub admit_frame-rate :
      (admit_frame fl l tcp_media monitor frame now).0.rate ≡ rate_on_sent fl l.rate now
  unfolding admit_frame
  admit_frame-rate = ground arith

  sent_at-entered : entered.sent_at (frame % 128) ≡ now
  unfolding flow_on_sent
  sent_at-entered = ground arith

  -- However long the oldest unacknowledged frame has waited, a frame whose number differs from it
  -- by a multiple of 128 is not dropped: entering it overwrites the time of the oldest one.
  pub admit_frame-lapse :
      (x : ℕ)
      → oldest_pending entered.last_ack (unacked_of l monitor) ≡ some x
      → frame % 128 ≡ x % 128
      → (admit_frame fl l tcp_media monitor frame now).1 ≢ dropped
  admit_frame-lapse x oldest same h =
      let overdue : Overdue entered now (some x) =
        subst (Overdue entered now) oldest (admit_frame-dropped_iff.0 h).2 in
      let cell : entered.sent_at (x % 128) ≡ now =
        subst (λ k. entered.sent_at k ≡ now) same sent_at-entered in
      absurd (omega (arith, overdue, cell))
