-- ===== src/Ui/Panel/Valid.antt =====
-- host/src/ui/panel.cpp: the settings stay within their ranges.
use immersive.Base.{ℕ, ◌≤◌, ◌≡◌, inl, inr, ◌||◌, List, [], ◌∷◌, All, arith, sym, codes, text_eq}
use mathlib.Core.Path.{subst}
use immersive.Ui.Conf.{Settings, load_host_conf}
use immersive.Ui.Conf.Valid.{IsValid, load_host_conf-IsValid}
use immersive.Ui.Form.{TextMap, text_at, parse_form}
use immersive.Ui.Actions.{
  Options, Answers, State, stored, refused, new_pairing_pin, set_pin_enabled, codec_named,
  set_codec, set_quality, set_audio, set_key, make_pin, remove_screen, act,
}
use immersive.Ui.Panel.{Request, Answer, serve_action, handle, serve}
use immersive.Ui.Panel.Guard.{handle-IsTrusted}

-- The random PINs have six digits.
abbrev pub HasPin : Answers → Type 0
HasPin ans = (100000 ≤ ans.random_pin) × (ans.random_pin ≤ 999999)

module _ (o : Options) (ans : Answers) (pin : HasPin ans) (st : State)
    (h : IsValid st.settings) where
  set_pin_enabled-IsValid : (b : _) → IsValid (set_pin_enabled st b ans).state.settings
  unfolding set_pin_enabled new_pairing_pin stored
  set_pin_enabled-IsValid b = ground arith

  set_codec-IsValid : (v : List ℕ) → IsValid (set_codec ans.disk st v).state.settings
  unfolding set_codec codec_named stored refused
  set_codec-IsValid v = ground arith

  set_quality-IsValid : (v : List ℕ) → IsValid (set_quality ans.disk st v).state.settings
  unfolding set_quality stored refused
  set_quality-IsValid v = ground arith

  set_key-IsValid : (key value : List ℕ) → IsValid (set_key o ans st key value).state.settings
  unfolding set_key set_audio stored refused
  set_key-IsValid key value =
      let on =
        text_eq value (codes "1") || text_eq value (codes "on") || text_eq value (codes "true") in
      ground (arith, set_pin_enabled-IsValid on, set_codec-IsValid value, set_quality-IsValid value)

  act-IsValid : (path : List ℕ) (form : TextMap) → IsValid (act o ans st path form).state.settings
  unfolding act make_pin new_pairing_pin remove_screen refused
  act-IsValid path form =
      ground (arith, set_key-IsValid (text_at (codes "key") form) (text_at (codes "value") form))

  handle-IsValid : (req : Request) → IsValid (handle o ans st req).state.settings
  unfolding serve_action
  handle-IsValid req =
      let acted = act-IsValid req.path (parse_form req.body) in
      elim (handle-IsTrusted o ans st req) [
        | inl (_, done) ↦ subst (λ (a : Answer). IsValid a.state.settings) (sym done) acted
        | inr (_, same, _) ↦ subst (λ (s : State). IsValid s.settings) (sym same) h
      ]

serve-All :
    (o : Options) (st : State) (reqs : List (Answers × Request))
    → All (λ (r : Answers × Request). HasPin r.0) reqs
    → IsValid st.settings
    → IsValid (serve o st reqs).settings
unfolding serve
serve-All o st [] pins h = h
serve-All o st ((ans, req) ∷ reqs) pins h =
    serve-All o (handle o ans st req).state reqs pins.1 (handle-IsValid o ans pins.0 st h req)

-- From settings within their ranges, whatever host.conf holds and whatever requests the panel then
-- serves, if the random PINs have six digits: the codec stays one of the four, the JPEG quality
-- between 10 and 95, and the PIN one of six digits or not made yet.
pub serve-load_host_conf-IsValid :
    (o : Options) (defaults : Settings) (st : State) (reqs : List (Answers × Request))
    → st.settings ≡ load_host_conf st.conf defaults
    → IsValid defaults
    → All (λ (r : Answers × Request). HasPin r.0) reqs
    → IsValid (serve o st reqs).settings
serve-load_host_conf-IsValid o defaults st reqs loaded h pins =
    serve-All o st reqs pins
      (subst IsValid (sym loaded) (load_host_conf-IsValid st.conf defaults h))
