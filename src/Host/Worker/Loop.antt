-- ===== src/Host/Worker/Loop.antt =====
-- host/src/main.cpp: the loop of stream_worker, a round of which takes a frame from the capture, or the
-- newest one again, and sends it or holds it back. Times are those of the steady clock; last_sent is
-- the one at which the last frame sent was taken up.
pub mod Pacing
pub mod Held
use immersive.Base.{
  ℕ, ◌+◌, ◌-◌, ◌*◌, ◌/◌, min, max, Bool, true, false, not, ◌&&◌, ◌||◌, List, [], ◌∷◌, ◌++◌, Option,
  none, some, leb, ltb, ◌==◌, if◌then◌else◌, u32, secs, ms, ◌≡◌, arith,
}
use immersive.Protocol.Messages.{StreamConfig}
use immersive.Host.Worker.{Ceilings}
use immersive.Host.Worker.Tuning.{EncoderConfig, Share, Encoder, Tuning, retune_encoder}

-- An encoded packet.
pub record Packet : Type 0 where
  pub bytes : List ℕ
  pub is_keyframe : Bool

-- The variables of the loop, for frames of a type `F`. A last_sent of 0 is that of a worker that
-- has sent nothing.
pub record Worker (F : Type 0) : Type 0 where
  pub tuning : Tuning
  pub frame_number : ℕ
  pub last_sent : ℕ
  pub last_idr : ℕ
  pub force_keyframe : Bool
  pub last_frame : Option F
  pub last_frame_unsent : Bool
  pub refine_left : ℕ
  pub encoded : ℕ
  pub tick_frames : ℕ
  pub next_tune : ℕ
  pub frame_high_water : ℕ

-- What a round meets: the time after acquire_frame(), the frame it gave, whether the capture still
-- runs, a request for a keyframe, the client's new ceilings, its share of the link, the frame rate
-- that this thread holds by its measured load (none if the encoder is not on the CPU), what the
-- encoder makes of a frame, and the time that scaling and encoding one takes.
pub record Round (F : Type 0) : Type 0 where
  pub now : ℕ
  pub captured : Option F
  pub is_capturing : Bool
  pub asked : Bool
  pub new_ceilings : Option Ceilings
  pub share : Share
  pub can_hold : Option ℕ
  pub packets : F → List Packet
  pub work : ℕ

-- What a round does outside: a keyframe demanded of the encoder, a frame given to it, and the
-- packets of a frame sent under its number, with the time at which the round took the frame up and
-- the later one, after scaling and encoding, at which they go out.
pub data Act (F : Type 0) : Type 0 where
  demanded_keyframe : ℕ → Act F
  encoded_frame : F → Act F
  sent_packets : (number taken sent : ℕ) → List Packet → Act F

abbrev pub k_idr_gap : ℕ
k_idr_gap = ms 200

abbrev pub k_refine_frames : ℕ
k_refine_frames = 30

abbrev pub interval : Tuning → ℕ
interval t = t.min_interval_us * 1000

-- The rate that a CPU encoder is held to, where the measured one has moved enough.
pub hold_rate : Tuning → ℕ → Tuning
hold_rate t held =
    let can = min t.ceilings.fps_cap (max 5 held) in
    let cur = min t.cpu_fps t.ceilings.fps_cap in
    if ltb (can + 2) cur
      || leb (cur + 5) can
      || can == t.ceilings.fps_cap && ltb cur t.ceilings.fps_cap
    then record t { cpu_fps = can }
    else t

-- The client's new settings, or none if the encoder could not be opened again.
unfoldable pub take_settings : Encoder → Share → Option Ceilings → Tuning → Option Tuning
take_settings enc share none t = some t
take_settings enc share (some ceilings) t =
    retune_encoder enc share true (record t { ceilings = ceilings })

pub hold_if_measured : ℕ → Option ℕ → Tuning → Tuning
hold_if_measured tick_frames none t = t
hold_if_measured tick_frames (some held) t = if leb 5 tick_frames then hold_rate t held else t

-- Every half second.
pub tick : {F : Type 0} → Encoder → Round F → Worker F → Worker F
tick enc r w =
    let tuned = hold_if_measured w.tick_frames r.can_hold w.tuning in
    if leb w.next_tune r.now
    then record w {
      next_tune = r.now + ms 500;
      tick_frames = 0;
      tuning = elim (retune_encoder enc r.share false tuned) [ none ↦ tuned | some t ↦ t ];
    }
    else w

pub any_key : List Packet → Bool
any_key [] = false
any_key (p ∷ ps) = p.is_keyframe || any_key ps

pub refined : Encoder → (resend key : Bool) → ℕ → ℕ
refined enc resend key left =
    if enc.is_mjpeg then 0 else if not resend || key then k_refine_frames else left - 1

module _ {F : Type 0} where
  -- How long acquire_frame() may wait, in milliseconds.
  pub wait_ms : Worker F → ℕ → ℕ
  wait_ms w now = elim w.last_frame [
    | none ↦ 16
    | some _ ↦
        if w.last_frame_unsent || ltb 0 w.refine_left
        then max 1 (min 16 ((w.last_sent + interval w.tuning - now) / 1000000))
        else 16
  ]

  -- Whether an idle capture's newest frame goes out now.
  pub is_due : Worker F → ℕ → Bool
  is_due w now =
      (w.last_frame_unsent || ltb 0 w.refine_left) && leb (interval w.tuning) (now - w.last_sent)
      || w.force_keyframe && leb k_idr_gap (now - w.last_idr)
      || leb (secs 1) (now - w.last_sent)

  pub is_paced_out : Worker F → ℕ → Bool
  is_paced_out w now = not (w.last_sent == 0) && ltb (now - w.last_sent) (interval w.tuning)

  -- The frame is encoded, and its packets are sent.
  pub encode_frame : Encoder → Round F → Worker F → F → Bool → Worker F × List (Act F)
  encode_frame enc r w f resend =
      let demand = w.force_keyframe && leb k_idr_gap (r.now - w.last_idr) in
      let packets = r.packets f in
      let fresh = not resend in
      let encoded = if fresh then u32 (w.encoded + 1) else w.encoded in
      let w' = record w {
        force_keyframe = if demand then false else w.force_keyframe;
        last_idr = if demand then r.now else w.last_idr;
        encoded = encoded;
        tick_frames = if fresh && ltb 5 encoded then u32 (w.tick_frames + 1) else w.tick_frames;
        refine_left = refined enc resend (any_key packets) w.refine_left;
        last_frame = some f;
        last_frame_unsent = false;
      } in
      let before = (if demand then demanded_keyframe r.now ∷ [] else []) ++ encoded_frame f ∷ [] in
      elim packets [
        | [] ↦ (w', before)
        | p ∷ ps ↦ (
          record w' {
            frame_high_water = w.frame_number;
            frame_number = u32 (w.frame_number + 1);
            last_sent = r.now;
          },
          before ++ sent_packets w.frame_number r.now (r.now + r.work) (p ∷ ps) ∷ [],
        )
      ]

  -- Frame pacing: what comes too early is held.
  pub pace_frame : Encoder → Round F → Worker F → F → Bool → Worker F × List (Act F)
  pace_frame enc r w f resend =
      if is_paced_out w r.now
      then (record w { last_frame = some f; last_frame_unsent = true }, [])
      else encode_frame enc r w f resend

  -- The idle capture's newest frame: `resend` tells that it went out before.
  pub idle_frame : Encoder → Round F → Worker F → Option F → Worker F × List (Act F)
  idle_frame enc r w none = (w, [])
  idle_frame enc r w (some f) =
      if r.is_capturing && is_due w r.now
      then pace_frame enc r (record w { last_frame = none }) f (not w.last_frame_unsent)
      else (w, [])

  pub next_frame : Encoder → Round F → Worker F → Option F → Worker F × List (Act F)
  next_frame enc r w (some f) = pace_frame enc r w f false
  next_frame enc r w none = idle_frame enc r w w.last_frame

  -- One round; none: the loop is left, since the encoder could not be opened again.
  unfoldable pub worker_round : Encoder → Worker F → Round F → Option (Worker F × List (Act F))
  worker_round enc w r =
      let asked = w.force_keyframe || r.asked in
      elim (take_settings enc r.share r.new_ceilings w.tuning) [
        | none ↦ none
        | some tuning ↦ some (
            next_frame enc r (tick enc r (record w { tuning = tuning; force_keyframe = asked }))
              r.captured)
      ]

  -- The rounds until stop is set or the encoder fails, and what they do.
  pub worker_rounds : Encoder → Worker F → List (Round F) → Worker F × List (Act F)
  worker_rounds enc w [] = (w, [])
  worker_rounds enc w (r ∷ rs) = elim (worker_round enc w r) [
    | none ↦ (w, [])
    | some (w', acts) ↦ let (w'', more) = worker_rounds enc w' rs in (w'', acts ++ more)
  ]

  pub worker_rounds-stop :
      (enc : Encoder) (w : Worker F) (r : Round F) (rs : List (Round F))
      → worker_round enc w r ≡ none
      → worker_rounds enc w (r ∷ rs) ≡ (w, [])
  unfolding worker_rounds
  worker_rounds-stop enc w r rs e = ground (arith, e)

  pub worker_rounds-next :
      (enc : Encoder) (w : Worker F) (r : Round F) (rs : List (Round F)) (w' : Worker F)
      (acts : List (Act F))
      → worker_round enc w r ≡ some (w', acts)
      → worker_rounds enc w (r ∷ rs)
        ≡ ((worker_rounds enc w' rs).0, acts ++ (worker_rounds enc w' rs).1)
  unfolding worker_rounds
  worker_rounds-next enc w r rs w' acts e = ground (arith, e)
