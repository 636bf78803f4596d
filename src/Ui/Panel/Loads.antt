-- ===== src/Ui/Panel/Loads.antt =====
-- host/src/ui/panel.cpp: the settings in use and the file that keeps them.
use immersive.Base.{
  true, none, ℕ, ◌≡◌, refl, ap, sym, ◌∙◌, inl, inr, Bool, not, ◌&&◌, ◌||◌, List, arith, ltb,
  Bool-cases, codes, text_eq, text_eq_iff, atoi,
}
use mathlib.Core.Path.{subst}
use immersive.Ui.Conf.{
  Settings, Line, on_off, load_line, load_host_conf, save_host_conf_key, new_conf,
}
use immersive.Ui.Conf.RoundTrip.{save_host_conf_key-written}
use immersive.Ui.Conf.Load.{load-new_conf}
use immersive.Ui.Conf.Keys.{
  Saves, load_line-pin, pin-Saves, view_only-Saves, audio-Saves, usb-Saves, h264-Saves, h265-Saves,
  mjpeg-Saves, av1-Saves, quality-Saves,
}
use immersive.Ui.Form.{TextMap, text_at, parse_form}
use immersive.Ui.Actions.{
  Options, Answers, State, stored, refused, new_pairing_pin, set_pin_enabled, codec_named,
  set_codec, set_quality, set_audio, set_key, make_pin, remove_screen, act,
}
use immersive.Ui.Panel.{Request, Answer, handle, serve_action}
use immersive.Ui.Panel.Guard.{handle-IsTrusted}

-- The file loads as the settings in use; the PIN itself is in a file of its own.
abbrev pub Loads : Settings → State → Type 0
Loads defaults st = record (load_host_conf st.conf defaults) { pin = st.settings.pin } ≡ st.settings

-- The system calls of a request succeed.
abbrev pub Succeeds : Answers → Type 0
Succeeds ans = (ans.disk.written ≡ true) × (ans.disk.renamed ≡ true) × (ans.pin_failure ≡ none)

module _ (defaults : Settings) (ans : Answers) (ok : Succeeds ans) where
  saves_file :
      (text key value : List ℕ)
      → (save_host_conf_key ans.disk text key value).0 ≡ new_conf text key value
  saves_file text key value = save_host_conf_key-written ans.disk text key value ok.0 ok.1

  -- A change that is saved leaves settings and file in step.
  stored-Loads :
      (st : State) (key value : List ℕ) (change : Settings → Settings) (s : Settings)
      → Saves key value change
      → change st.settings ≡ s
      → s.pin ≡ st.settings.pin
      → Loads defaults st
      → record (load_host_conf (save_host_conf_key ans.disk st.conf key value).0 defaults) {
        pin = s.pin;
      }
        ≡ s
  stored-Loads st key value change s saves changed same_pin h =
      let new : Line = record { key = key; value = value } in
      let old = load_host_conf st.conf defaults in
      ap (λ (text : List ℕ). record (load_host_conf text defaults) { pin = s.pin })
        (saves_file st.conf key value)
      ∙ ap (λ (t : Settings). record t { pin = s.pin })
          (load-new_conf key value saves.setting st.conf defaults saves.line)
      ∙ sym (load_line-pin old new s.pin)
      ∙ ap (λ (p : ℕ). load_line (record old { pin = p }) new) same_pin
      ∙ ap (λ (t : Settings). load_line t new) h
      ∙ saves.loads st.settings
      ∙ changed

  new_pairing_pin-Loads : (st : State) → Loads defaults st → Loads defaults (new_pairing_pin st ans)
  unfolding new_pairing_pin
  new_pairing_pin-Loads st h = ap (λ (s : Settings). record s { pin = ans.random_pin }) h

  set_pin_enabled-Loads :
      (st : State) (on : Bool)
      → Loads defaults st
      → Loads defaults (set_pin_enabled st on ans).state
  unfolding set_pin_enabled stored
  set_pin_enabled-Loads st on h = elim (Bool-cases (on && ltb st.settings.pin 100000)) [
    | inl make ↦ rw make (
        stored-Loads (new_pairing_pin st ans) (codes "pin") (on_off on) _ _ (pin-Saves on) refl refl
          (new_pairing_pin-Loads st h))
    | inr keep ↦ rw keep (stored-Loads st (codes "pin") (on_off on) _ _ (pin-Saves on) refl refl h)
  ]

  set_codec-Loads :
      (st : State) (v : List ℕ) → Loads defaults st → Loads defaults (set_codec ans.disk st v).state
  unfolding set_codec codec_named stored refused
  set_codec-Loads st v h =
      let saved = λ (name : List ℕ) (codec : ℕ).
        record (load_host_conf (save_host_conf_key ans.disk st.conf (codes "codec") name).0
          defaults) { pin = st.settings.pin }
        ≡ record st.settings { codec = codec } in
      let h264 : saved (codes "h264") 0 = stored-Loads st _ _ _ _ h264-Saves refl refl h in
      let h265 : saved (codes "h265") 1 = stored-Loads st _ _ _ _ h265-Saves refl refl h in
      let mjpeg : saved (codes "mjpeg") 2 = stored-Loads st _ _ _ _ mjpeg-Saves refl refl h in
      let av1 : saved (codes "av1") 3 = stored-Loads st _ _ _ _ av1-Saves refl refl h in
      ground (
        arith,
        h,
        h264,
        h265,
        mjpeg,
        av1,
        text_eq_iff v (codes "h264"),
        text_eq_iff v (codes "h265"),
        text_eq_iff v (codes "mjpeg"),
        text_eq_iff v (codes "av1"),
      )

  set_quality-Loads :
      (st : State) (v : List ℕ)
      → Loads defaults st
      → Loads defaults (set_quality ans.disk st v).state
  unfolding set_quality stored refused
  set_quality-Loads st v h =
      let q = (atoi v).digits in
      elim (Bool-cases ((atoi v).negative || ltb q 10 || ltb 95 q)) [
        | inl bad ↦ rw bad h
        | inr good ↦ rw good (
            stored-Loads st _ _ _ _ (quality-Saves q (ground (arith, good)) (ground (arith, good)))
              refl refl h)
      ]

  set_audio-Loads :
      (o : Options) (st : State) (on : Bool) (clients : List ℕ)
      → Loads defaults st
      → Loads defaults (set_audio o ans.disk st on clients).state
  unfolding set_audio stored refused
  set_audio-Loads o st on clients h = elim (Bool-cases (not o.audio_available)) [
    | inl off ↦ rw off h
    | inr available ↦ rw available (stored-Loads st _ _ _ _ (audio-Saves on) refl refl h)
  ]

  set_key-Loads :
      (o : Options) (st : State) (key value : List ℕ)
      → Loads defaults st
      → Loads defaults (set_key o ans st key value).state
  unfolding set_key stored refused
  set_key-Loads o st key value h =
      let on =
        text_eq value (codes "1") || text_eq value (codes "on") || text_eq value (codes "true") in
      let view_only = stored-Loads st _ _ _ _ (view_only-Saves on) refl refl h in
      let usb = stored-Loads st _ _ _ _ (usb-Saves on) refl refl h in
      ground (
        arith,
        h,
        view_only,
        usb,
        set_pin_enabled-Loads st on h,
        set_codec-Loads st value h,
        set_quality-Loads st value h,
        set_audio-Loads o st on ans.clients h,
      )

  act-Loads :
      (o : Options) (st : State) (path : List ℕ) (form : TextMap)
      → Loads defaults st
      → Loads defaults (act o ans st path form).state
  unfolding act make_pin remove_screen refused
  act-Loads o st path form h = ground (
    arith,
    h,
    set_key-Loads o st (text_at (codes "key") form) (text_at (codes "value") form) h,
    new_pairing_pin-Loads st h,
  )

  pub handle-Loads :
      (o : Options) (st : State) (req : Request)
      → Loads defaults st
      → Loads defaults (handle o ans st req).state
  unfolding serve_action
  handle-Loads o st req h =
      let acted = act-Loads o st req.path (parse_form req.body) h in
      elim (handle-IsTrusted o ans st req) [
        | inl (_, done) ↦ subst (λ (a : Answer). Loads defaults a.state) (sym done) acted
        | inr (_, same, _) ↦ subst (Loads defaults) (sym same) h
      ]
