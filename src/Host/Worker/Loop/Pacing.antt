-- ===== src/Host/Worker/Loop/Pacing.antt =====
-- host/src/main.cpp: the numbers and the times of the frames that stream_worker sends.
use immersive.Base.{
  ℕ, ◌+◌, ◌≤◌, ◌<◌, ◌≡◌, ◌⊎◌, refl, ap, sym, inl, inr, Bool, true, false, not, ◌&&◌, ◌||◌, List, [],
  ◌∷◌, ◌++◌, Option, none, some, arith, Bool-cases, Option-cases, All, u32,
}
use mathlib.Core.Path.{subst}
use immersive.Host.Worker.{Ceilings}
use immersive.Host.Worker.Tuning.{Share, Encoder, Tuning, retune_encoder}
use immersive.Host.Worker.Tuning.Forced.{IsCapped}
use immersive.Host.Worker.Tuning.Paced.{IsPaced, retune_encoder-IsPaced}
use immersive.Host.Worker.Loop.{
  Worker, Round, Act, demanded_keyframe, encoded_frame, sent_packets, interval, hold_rate,
  take_settings, hold_if_measured, tick, is_due, is_paced_out, encode_frame, pace_frame, idle_frame,
  next_frame, worker_round, worker_rounds, worker_rounds-stop, worker_rounds-next,
}

-- The new ceilings, if there are any, are such as take_cfg makes.
abbrev pub NewCapped : Option Ceilings → Type 0
NewCapped none = Unit
NewCapped (some c) = IsCapped c

hold_if_measured-IsPaced :
    (ticks : ℕ) (held : Option ℕ) (t : Tuning) → IsPaced t → IsPaced (hold_if_measured ticks held t)
unfolding hold_if_measured hold_rate
hold_if_measured-IsPaced ticks none t h = h
hold_if_measured-IsPaced ticks (some held) t h = ground arith

pub take_settings-IsPaced :
    (enc : Encoder) (share : Share) (new : Option Ceilings) (t t' : Tuning)
    → IsPaced t
    → NewCapped new
    → take_settings enc share new t ≡ some t'
    → IsPaced t'
unfolding take_settings
take_settings-IsPaced enc share none t t' h capped e = ground (arith, e, h)
take_settings-IsPaced enc share (some ceilings) t t' h capped e =
    let t0 : Tuning = record t { ceilings = ceilings } in
    let paced : IsPaced t0 = record {
      capped = capped;
      cpu = h.cpu;
      slow = h.slow;
      quick = h.quick;
    } in
    retune_encoder-IsPaced enc share true t0 t' paced e

module _ {F : Type 0} (enc : Encoder) (r : Round F) where
  pub tick-IsPaced : (w : Worker F) → IsPaced w.tuning → IsPaced (tick enc r w).tuning
  unfolding tick
  tick-IsPaced w h =
      let tuned = hold_if_measured w.tick_frames r.can_hold w.tuning in
      let held = hold_if_measured-IsPaced w.tick_frames r.can_hold w.tuning h in
      elim (Option-cases (retune_encoder enc r.share false tuned)) [
        | inl failed ↦ ground (arith, failed, h, held)
        | inr (t, done) ↦
            ground (arith, done, h, retune_encoder-IsPaced enc r.share false tuned t held done)
      ]

  tick-keeps :
      (w : Worker F)
      → ((tick enc r w).frame_number ≡ w.frame_number) × ((tick enc r w).last_sent ≡ w.last_sent)
  unfolding tick
  tick-keeps w = ground arith

-- The numbers of the frames that are sent, with the times at which they were taken up and sent.
pub sends : {F : Type 0} → List (Act F) → List (ℕ × ℕ × ℕ)
sends [] = []
sends (sent_packets number taken sent _ ∷ acts) = (number, taken, sent) ∷ sends acts
sends (demanded_keyframe _ ∷ acts) = sends acts
sends (encoded_frame _ ∷ acts) = sends acts

sends-append : {F : Type 0} (xs ys : List (Act F)) → sends (xs ++ ys) ≡ sends xs ++ sends ys
unfolding sends
sends-append [] ys = refl
sends-append (sent_packets number taken sent ps ∷ xs) ys =
    ap (◌∷◌ (number, taken, sent)) (sends-append xs ys)
sends-append (demanded_keyframe _ ∷ xs) ys = sends-append xs ys
sends-append (encoded_frame _ ∷ xs) ys = sends-append xs ys

-- What a round may send: nothing, or the next number, not before the interval is over.
abbrev Sent : {F : Type 0} → (now sent : ℕ) → Worker F → Worker F × List (Act F) → Type 0
Sent now sent w (w', acts) =
    (w'.tuning ≡ w.tuning)
    × (((sends acts ≡ []) × (w'.frame_number ≡ w.frame_number) × (w'.last_sent ≡ w.last_sent))
        ⊎ ((sends acts ≡ (w.frame_number, now, sent) ∷ [])
            × (w'.frame_number ≡ u32 (w.frame_number + 1))
            × (w'.last_sent ≡ now)
            × ((w.last_sent ≡ 0) ⊎ (w.last_sent + interval w.tuning ≤ now))))

module _ {F : Type 0} (enc : Encoder) (r : Round F) where
  encode_frame-Sent :
      (w : Worker F) (f : F) (resend : Bool)
      → (w.last_sent ≡ 0) ⊎ (w.last_sent + interval w.tuning ≤ r.now)
      → Sent r.now (r.now + r.work) w (encode_frame enc r w f resend)
  unfolding encode_frame sends
  encode_frame-Sent w f resend late = ground (arith, late)

  pace_frame-Sent :
      (w : Worker F) (f : F) (resend : Bool)
      → 0 < interval w.tuning
      → Sent r.now (r.now + r.work) w (pace_frame enc r w f resend)
  unfolding pace_frame is_paced_out sends
  pace_frame-Sent w f resend pos = elim (Bool-cases (is_paced_out w r.now)) [
    | inl early ↦ rw early (refl, inl (refl, refl, refl))
    | inr late ↦ rw late (encode_frame-Sent w f resend (ground (arith, late, pos)))
  ]

  idle_frame-Sent :
      (w : Worker F) (newest : Option F)
      → 0 < interval w.tuning
      → Sent r.now (r.now + r.work) w (idle_frame enc r w newest)
  unfolding idle_frame sends
  idle_frame-Sent w none pos = (refl, inl (refl, refl, refl))
  idle_frame-Sent w (some f) pos = elim (Bool-cases (r.is_capturing && is_due w r.now)) [
    | inl due ↦
        rw due (pace_frame-Sent (record w { last_frame = none }) f (not w.last_frame_unsent) pos)
    | inr idle ↦ rw idle (refl, inl (refl, refl, refl))
  ]

  next_frame-Sent :
      (w : Worker F) (captured : Option F)
      → 0 < interval w.tuning
      → Sent r.now (r.now + r.work) w (next_frame enc r w captured)
  unfolding next_frame
  next_frame-Sent w none pos = idle_frame-Sent w w.last_frame pos
  next_frame-Sent w (some f) pos = pace_frame-Sent w f false pos

  -- A round keeps the pace, and sends nothing or the next number a period after the last.
  pub worker_round-Sent :
      (w w' : Worker F) (acts : List (Act F))
      → IsPaced w.tuning
      → NewCapped r.new_ceilings
      → worker_round enc w r ≡ some (w', acts)
      → IsPaced w'.tuning
        × (((sends acts ≡ []) × (w'.frame_number ≡ w.frame_number) × (w'.last_sent ≡ w.last_sent))
            ⊎ ((sends acts ≡ (w.frame_number, r.now, r.now + r.work) ∷ [])
                × (w'.frame_number ≡ u32 (w.frame_number + 1))
                × (w'.last_sent ≡ r.now)
                × ((w.last_sent ≡ 0) ⊎ (w.last_sent + 8333000 ≤ r.now))))
  unfolding worker_round
  worker_round-Sent w w' acts paced capped e =
      elim (Option-cases (take_settings enc r.share r.new_ceilings w.tuning)) [
        | inl failed ↦ absurd (ground (arith, failed, e))
        | inr (t, taken) ↦
            let w0 = record w { tuning = t; force_keyframe = w.force_keyframe || r.asked } in
            let w1 = tick enc r w0 in
            let p0 =
              take_settings-IsPaced enc r.share r.new_ceilings w.tuning t paced capped taken in
            let p1 = tick-IsPaced enc r w0 p0 in
            let same : next_frame enc r w1 r.captured ≡ (w', acts) = ground (arith, taken, e) in
            let sent =
              subst (Sent r.now (r.now + r.work) w1) same
                (next_frame-Sent w1 r.captured (omega (arith, p1.slow))) in
            let kept = tick-keeps enc r w0 in
            (subst IsPaced (sym sent.0) p1, ground (arith, sent.1, kept, p1.slow))
      ]

-- Numbers that follow one another from `number` on, each taken up 8.333 ms or more after the one
-- before, and sent afterwards.
abbrev pub Spaced : (number last : ℕ) → List (ℕ × ℕ × ℕ) → Type 0
Spaced number last [] = Unit
Spaced number last ((n, taken, sent) ∷ rest) =
    (n ≡ number)
    × ((last ≡ 0) ⊎ (last + 8333000 ≤ taken))
    × (taken ≤ sent)
    × Spaced (u32 (number + 1)) taken rest

joined :
    {F : Type 0} (now work : ℕ) (w w' : Worker F) (sent later : List (ℕ × ℕ × ℕ))
    → ((sent ≡ []) × (w'.frame_number ≡ w.frame_number) × (w'.last_sent ≡ w.last_sent))
      ⊎ ((sent ≡ (w.frame_number, now, now + work) ∷ [])
          × (w'.frame_number ≡ u32 (w.frame_number + 1))
          × (w'.last_sent ≡ now)
          × ((w.last_sent ≡ 0) ⊎ (w.last_sent + 8333000 ≤ now)))
    → Spaced w'.frame_number w'.last_sent later
    → Spaced w.frame_number w.last_sent (sent ++ later)
joined now work w w' sent later (inl (none_sent, number, last)) h = rw none_sent (
    subst (λ (n : ℕ). Spaced n w.last_sent later) number
      (subst (λ (t : ℕ). Spaced w'.frame_number t later) last h))
joined now work w w' sent later (inr (one_sent, number, last, period)) h = rw one_sent (
  refl,
  period,
  omega arith,
  subst (λ (n : ℕ). Spaced n now later) number
      (subst (λ (t : ℕ). Spaced w'.frame_number t later) last h),
)

-- Whatever is captured, asked for and configured, and whatever the encoder makes of it: the frames
-- that a stream worker sends are numbered one after another from its first number on, and each
-- is taken up 8.333 ms or more after the one before it, which is 120 frames per second; it goes out
-- at that time or, by as much as scaling and encoding it take, later.
pub worker_rounds-Spaced :
    {F : Type 0} (enc : Encoder) (w : Worker F) (rs : List (Round F))
    → IsPaced w.tuning
    → All (λ (r : Round F). NewCapped r.new_ceilings) rs
    → Spaced w.frame_number w.last_sent (sends (worker_rounds enc w rs).1)
unfolding worker_rounds sends
worker_rounds-Spaced {F} enc w [] paced capped = tt
worker_rounds-Spaced {F} enc w (r ∷ rs) paced capped = elim (Option-cases (worker_round enc w r)) [
  | inl failed ↦
      subst (λ (q : Worker F × List (Act F)). Spaced w.frame_number w.last_sent (sends q.1))
        (sym (worker_rounds-stop enc w r rs failed)) tt
  | inr ((w', acts), done) ↦
      let round = worker_round-Sent enc r w w' acts paced capped.0 done in
      let later = worker_rounds-Spaced enc w' rs round.0 capped.1 in
      subst (λ (q : Worker F × List (Act F)). Spaced w.frame_number w.last_sent (sends q.1))
        (sym (worker_rounds-next enc w r rs w' acts done))
        (rw (sends-append acts (worker_rounds enc w' rs).1)
          (joined r.now r.work w w' (sends acts) _ round.1 later))
]
