-- ===== src/Ui/Panel/Persist.antt =====
-- host/src/ui/panel.cpp: the settings in use and the two files that keep them.
use immersive.Base.{
  ℕ, ◌≡◌, ◌⊎◌, ◌<◌, sym, inl, inr, ◌||◌, List, [], ◌∷◌, ◌++◌, All, none, arith, codes, text_eq,
  decimal,
}
use mathlib.Core.Path.{subst}
use immersive.Ui.Conf.{Settings}
use immersive.Ui.Form.{TextMap, text_at, parse_form}
use immersive.Ui.Actions.{
  Options, Answers, State, stored, refused, new_pairing_pin, set_pin_enabled, codec_named,
  set_codec, set_quality, set_audio, set_key, make_pin, remove_screen, act,
}
use immersive.Ui.Panel.{Request, Answer, handle, serve_action, serve}
use immersive.Ui.Panel.Guard.{handle-IsTrusted}
use immersive.Ui.Panel.Loads.{Loads, Succeeds, handle-Loads}

-- The PIN's file holds its digits, once a PIN of six digits was made.
abbrev pub KeepsPin : State → Type 0
KeepsPin st = (st.settings.pin < 100000) ⊎ (st.pin_file ≡ decimal st.settings.pin ++ 10 ∷ [])

-- What the host would read of both files at its next start, for its defaults, is what is in use.
abbrev pub IsSaved : Settings → State → Type 0
IsSaved defaults st = Loads defaults st × KeepsPin st

module _ (o : Options) (ans : Answers) (made : ans.pin_failure ≡ none) (st : State)
    (h : KeepsPin st) where
  set_pin_enabled-KeepsPin : (b : _) → KeepsPin (set_pin_enabled st b ans).state
  unfolding set_pin_enabled new_pairing_pin stored
  set_pin_enabled-KeepsPin b = ground (arith, made, h)

  set_codec-KeepsPin : (v : List ℕ) → KeepsPin (set_codec ans.disk st v).state
  unfolding set_codec codec_named stored refused
  set_codec-KeepsPin v = ground (arith, h)

  set_quality-KeepsPin : (v : List ℕ) → KeepsPin (set_quality ans.disk st v).state
  unfolding set_quality stored refused
  set_quality-KeepsPin v = ground (arith, h)

  set_key-KeepsPin : (key value : List ℕ) → KeepsPin (set_key o ans st key value).state
  unfolding set_key set_audio stored refused
  set_key-KeepsPin key value =
      let on =
        text_eq value (codes "1") || text_eq value (codes "on") || text_eq value (codes "true") in
      ground (
        arith,
        h,
        set_pin_enabled-KeepsPin on,
        set_codec-KeepsPin value,
        set_quality-KeepsPin value,
      )

  act-KeepsPin : (path : List ℕ) (form : TextMap) → KeepsPin (act o ans st path form).state
  unfolding act make_pin new_pairing_pin remove_screen refused
  act-KeepsPin path form =
      ground (
        arith,
        h,
        made,
        set_key-KeepsPin (text_at (codes "key") form) (text_at (codes "value") form),
      )

  handle-KeepsPin : (req : Request) → KeepsPin (handle o ans st req).state
  unfolding serve_action
  handle-KeepsPin req =
      let acted = act-KeepsPin req.path (parse_form req.body) in
      elim (handle-IsTrusted o ans st req) [
        | inl (_, done) ↦ subst (λ (a : Answer). KeepsPin a.state) (sym done) acted
        | inr (_, same, _) ↦ subst KeepsPin (sym same) h
      ]

-- The settings files implement the settings in use: if they agree when the panel starts, they agree
-- after any requests whatever, with a random PIN and the host's answers in each of them, as long as
-- the writes of the files succeed. So the next start of the host finds in host.conf every setting as
-- the panel last left it, and in the PIN's file the digits of the PIN, once it has six.
pub serve-IsSaved :
    (defaults : Settings) (o : Options) (st : State) (reqs : List (Answers × Request))
    → All (λ (r : Answers × Request). Succeeds r.0) reqs
    → IsSaved defaults st
    → IsSaved defaults (serve o st reqs)
unfolding serve
serve-IsSaved defaults o st [] ok h = h
serve-IsSaved defaults o st ((ans, req) ∷ reqs) ok h =
    serve-IsSaved defaults o (handle o ans st req).state reqs ok.1
      (handle-Loads defaults ans ok.0 o st req h.0, handle-KeepsPin o ans ok.0.2 st h.1 req)
