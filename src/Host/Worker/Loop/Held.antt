-- ===== src/Host/Worker/Loop/Held.antt =====
-- host/src/main.cpp: stream_worker loses no captured frame that no newer one replaces.
use immersive.Base.{
  ◌+◌, ◌≤◌, ◌<◌, ◌≡◌, ◌⊎◌, refl, sym, ◌∙◌, inl, inr, Bool, true, false, not, ◌&&◌, ◌||◌, List, [],
  ◌∷◌, ◌++◌, none, some, arith, Bool-cases, Option-cases, All, secs,
}
use mathlib.Core.Path.{subst}
use immersive.Host.Worker.Tuning.{Share, Encoder, Tuning}
use immersive.Host.Worker.Tuning.Paced.{IsPaced}
use immersive.Host.Worker.Loop.{
  Worker, Round, Act, demanded_keyframe, encoded_frame, sent_packets, interval, take_settings, tick,
  is_due, is_paced_out, encode_frame, pace_frame, idle_frame, next_frame, worker_round,
  worker_rounds, worker_rounds-next,
}
use immersive.Host.Worker.Loop.Pacing.{NewCapped, tick-IsPaced, worker_round-Sent}

-- The frame is given to the encoder.
abbrev pub Encodes : {F : Type 0} → F → List (Act F) → Type 0
Encodes f [] = ⊥
Encodes f (encoded_frame g ∷ acts) = (g ≡ f) ⊎ Encodes f acts
Encodes f (demanded_keyframe _ ∷ acts) = Encodes f acts
Encodes f (sent_packets _ _ _ _ ∷ acts) = Encodes f acts

Encodes-append_left :
    {F : Type 0} (f : F) (xs ys : List (Act F)) → Encodes f xs → Encodes f (xs ++ ys)
Encodes-append_left f [] ys h = absurd h
Encodes-append_left f (encoded_frame g ∷ xs) ys (inl e) = inl e
Encodes-append_left f (encoded_frame g ∷ xs) ys (inr h) = inr (Encodes-append_left f xs ys h)
Encodes-append_left f (demanded_keyframe _ ∷ xs) ys h = Encodes-append_left f xs ys h
Encodes-append_left f (sent_packets _ _ _ _ ∷ xs) ys h = Encodes-append_left f xs ys h

Encodes-append_right :
    {F : Type 0} (f : F) (xs ys : List (Act F)) → Encodes f ys → Encodes f (xs ++ ys)
Encodes-append_right f [] ys h = h
Encodes-append_right f (encoded_frame g ∷ xs) ys h = inr (Encodes-append_right f xs ys h)
Encodes-append_right f (demanded_keyframe _ ∷ xs) ys h = Encodes-append_right f xs ys h
Encodes-append_right f (sent_packets _ _ _ _ ∷ xs) ys h = Encodes-append_right f xs ys h

-- The frame waits in the worker.
abbrev pub Holds : {F : Type 0} → F → Worker F → Type 0
Holds f w = (w.last_frame ≡ some f) × (w.last_frame_unsent ≡ true)

module _ {F : Type 0} (enc : Encoder) (r : Round F) (f : F) where
  encode_frame-Encodes :
      (w : Worker F) (resend : Bool) → Encodes f (encode_frame enc r w f resend).1
  unfolding encode_frame
  encode_frame-Encodes w resend = ground arith

  -- A frame that is paced is encoded, or waits because the interval is not over.
  pace_frame-Holds :
      (w : Worker F) (resend : Bool)
      → Encodes f (pace_frame enc r w f resend).1
        ⊎ (Holds f (pace_frame enc r w f resend).0
            × ((pace_frame enc r w f resend).0.last_sent ≡ w.last_sent)
            × ((pace_frame enc r w f resend).0.tuning ≡ w.tuning)
            × (r.now < w.last_sent + interval w.tuning))
  unfolding pace_frame is_paced_out
  pace_frame-Holds w resend = elim (Bool-cases (is_paced_out w r.now)) [
    | inl early ↦ rw early (inr ((refl, refl), refl, refl, ground (arith, early)))
    | inr late ↦ rw late (inl (encode_frame-Encodes w resend))
  ]

  tick-Holds :
      (w : Worker F)
      → ((tick enc r w).last_frame ≡ w.last_frame)
        × ((tick enc r w).last_frame_unsent ≡ w.last_frame_unsent)
        × ((tick enc r w).last_sent ≡ w.last_sent)
  unfolding tick
  tick-Holds w = ground arith

  not_due : (w : Worker F) → is_due w r.now ≡ false → r.now < w.last_sent + secs 1
  unfolding is_due
  not_due w e = ground (arith, e)

  idle_frame-Holds :
      (w : Worker F)
      → IsPaced w.tuning
      → Holds f w
      → r.is_capturing ≡ true
      → let next = idle_frame enc r w (some f) in
        Encodes f next.1
        ⊎ (Holds f next.0 × (next.0.last_sent ≡ w.last_sent) × (r.now < w.last_sent + secs 1))
  unfolding idle_frame
  idle_frame-Holds w paced h on = elim (Bool-cases (r.is_capturing && is_due w r.now)) [
    | inl due ↦
        let again = not w.last_frame_unsent in
        rw due (elim (pace_frame-Holds (record w { last_frame = none }) again) [
          | inl done ↦ inl done
          | inr (held, same, _, early) ↦ inr (held, same, omega (arith, early, paced.quick))
        ])
    | inr idle ↦ rw idle (inr (h, refl, not_due w (ground (arith, idle, on))))
  ]

-- A round in which the capture runs and has nothing new, and the client's settings stay.
abbrev pub IsIdle : {F : Type 0} → Round F → Type 0
IsIdle r = (r.captured ≡ none) × (r.is_capturing ≡ true) × (r.new_ceilings ≡ none)

take_settings-none :
    (enc : Encoder) (share : Share) (t : Tuning) → take_settings enc share none t ≡ some t
unfolding take_settings
take_settings-none enc share t = refl

module _ {F : Type 0} (enc : Encoder) (r : Round F) (f : F) where
  -- What a frame newly captured or held is at the end of a round.
  worker_round-captured :
      (w w' : Worker F) (acts : List (Act F))
      → r.captured ≡ some f
      → worker_round enc w r ≡ some (w', acts)
      → Encodes f acts ⊎ Holds f w'
  unfolding worker_round next_frame
  worker_round-captured w w' acts new e =
      elim (Option-cases (take_settings enc r.share r.new_ceilings w.tuning)) [
        | inl failed ↦ absurd (ground (arith, failed, e))
        | inr (t, taken) ↦
            let w0 = record w { tuning = t; force_keyframe = w.force_keyframe || r.asked } in
            let w1 = tick enc r w0 in
            let same : pace_frame enc r w1 f false ≡ (w', acts) = ground (arith, taken, new, e) in
            let paced =
              subst
                (λ (q : Worker F × List (Act F)).
                  Encodes f q.1
                  ⊎ (Holds f q.0
                      × (q.0.last_sent ≡ w1.last_sent)
                      × (q.0.tuning ≡ w1.tuning)
                      × (r.now < w1.last_sent + interval w1.tuning)))
                same (pace_frame-Holds enc r f w1 false) in
            elim paced [ inl done ↦ inl done | inr (held, _, _, _) ↦ inr held ]
      ]

  worker_round-idle :
      (w : Worker F)
      → IsIdle r
      → IsPaced w.tuning
      → Holds f w
      → (w' : Worker F) × (acts : List (Act F)) × (worker_round enc w r ≡ some (w', acts))
        × (Encodes f acts
            ⊎ (Holds f w' × (w'.last_sent ≡ w.last_sent) × (r.now < w.last_sent + secs 1)))
  unfolding worker_round next_frame
  worker_round-idle w idle paced h =
      let w0 = record w { force_keyframe = w.force_keyframe || r.asked } in
      let w1 = tick enc r w0 in
      let ticked = tick-Holds enc r f w0 in
      let held : Holds f w1 = (ticked.0 ∙ h.0, ticked.1 ∙ h.1) in
      let next = idle_frame-Holds enc r f w1 (tick-IsPaced enc r w0 paced) held idle.1 in
      let result = idle_frame enc r w1 (some f) in
      (
        result.0,
        result.1,
        ground (arith, idle, held, take_settings-none enc r.share w.tuning),
        ground (arith, next, ticked),
      )

first_round :
    {F : Type 0} (enc : Encoder) (w : Worker F) (f : F) (r : Round F) (rs : List (Round F))
    (w' : Worker F) (acts : List (Act F))
    → worker_round enc w r ≡ some (w', acts)
    → Encodes f acts
    → Encodes f (worker_rounds enc w (r ∷ rs)).1
first_round {F} enc w f r rs w' acts done h =
    subst (λ (q : Worker F × List (Act F)). Encodes f q.1)
      (sym (worker_rounds-next enc w r rs w' acts done)) (Encodes-append_left f acts _ h)

-- A held frame is encoded in an idle round a second after the last frame was sent.
worker_rounds-Encodes :
    {F : Type 0} (enc : Encoder) (w : Worker F) (f : F) (rs : List (Round F)) (last : Round F)
    → IsPaced w.tuning
    → Holds f w
    → All IsIdle rs
    → IsIdle last
    → w.last_sent + secs 1 ≤ last.now
    → Encodes f (worker_rounds enc w (rs ++ last ∷ [])).1
worker_rounds-Encodes {F} enc w f [] last paced h idle end late =
    let (w', acts, done, out) = worker_round-idle enc last f w end paced h in
    elim out [
      | inl encodes ↦ first_round enc w f last [] w' acts done encodes
      | inr (_, _, early) ↦ absurd (omega (arith, early, late))
    ]
worker_rounds-Encodes {F} enc w f (r ∷ rs) last paced h idle end late =
    let (w', acts, done, out) = worker_round-idle enc r f w idle.0 paced h in
    elim out [
      | inl encodes ↦ first_round enc w f r (rs ++ last ∷ []) w' acts done encodes
      | inr (held, same, _) ↦
          let capped = subst NewCapped (sym idle.0.2) tt in
          let paced' = (worker_round-Sent enc r w w' acts paced capped done).0 in
          let later =
            worker_rounds-Encodes enc w' f rs last paced' held idle.1 end
              (omega (arith, same, late)) in
          subst (λ (q : Worker F × List (Act F)). Encodes f q.1)
            (sym (worker_rounds-next enc w r (rs ++ last ∷ []) w' acts done))
            (Encodes-append_right f acts _ later)
    ]

-- A captured frame that none follows is not left behind: unless its own round ends the worker, and
-- if the capture then only idles and the client's settings stay, a round that comes one second
-- or more after the frame was captured and the last frame was sent finds the frame given to the
-- encoder, then or before, at any frame rate that the worker is tuned to.
pub worker_rounds-captured :
    {F : Type 0} (enc : Encoder) (w : Worker F) (f : F) (r : Round F) (rs : List (Round F))
    (last : Round F) (w' : Worker F) (acts : List (Act F))
    → IsPaced w.tuning
    → NewCapped r.new_ceilings
    → r.captured ≡ some f
    → worker_round enc w r ≡ some (w', acts)
    → All IsIdle rs
    → IsIdle last
    → (w.last_sent + secs 1 ≤ last.now) × (r.now + secs 1 ≤ last.now)
    → Encodes f (worker_rounds enc w (r ∷ (rs ++ last ∷ []))).1
worker_rounds-captured {F} enc w f r rs last w' acts paced capped new done idle end late =
    let sent = worker_round-Sent enc r w w' acts paced capped done in
    elim (worker_round-captured enc r f w w' acts new done) [
      | inl encodes ↦ first_round enc w f r (rs ++ last ∷ []) w' acts done encodes
      | inr held ↦
          let later =
            worker_rounds-Encodes enc w' f rs last sent.0 held idle end
              (ground (arith, sent.1, late)) in
          subst (λ (q : Worker F × List (Act F)). Encodes f q.1)
            (sym (worker_rounds-next enc w r (rs ++ last ∷ []) w' acts done))
            (Encodes-append_right f acts _ later)
    ]
