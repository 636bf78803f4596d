-- ===== src/Ui/Panel/Errors.antt =====
-- host/src/ui/panel.cpp: the actions that the panel refuses.
use immersive.Base.{ℕ, ◌≡◌, ◌≢◌, ◌⊎◌, inl, inr, true, false, List, [], ◌∷◌, arith, codes, is_empty}
use immersive.Ui.Form.{TextMap, text_at, parse_form}
use immersive.Ui.Panel.Guard.{handle-IsTrusted}
use immersive.Ui.Actions.{
  Options, Answers, State, Outcome, set_autostart, remove_virtual, refused, stored, set_pin_enabled,
  set_codec, set_quality, set_audio, set_key, make_pin, remove_screen, act,
}
use immersive.Ui.Panel.{Request, serve_action, handle}

-- Nothing was changed, and nothing but a system call that failed was tried.
abbrev HasNoEffect : Answers → State → Outcome → Type 0
HasNoEffect ans st a =
    (a.error ≡ [])
    ⊎ ((a.state ≡ st)
        × ((a.calls ≡ [])
            ⊎ ((a.calls ≡ set_autostart true ∷ []) × (ans.autostart_set ≡ false))
            ⊎ ((a.calls ≡ set_autostart false ∷ []) × (ans.autostart_set ≡ false))
            ⊎ ((id : ℕ) × (a.calls ≡ remove_virtual id ∷ []) × (ans.remove_virtual id ≡ false))))

module _ (o : Options) (ans : Answers) (st : State) where
  set_key-HasNoEffect : (key value : List ℕ) → HasNoEffect ans st (set_key o ans st key value)
  unfolding set_key set_pin_enabled set_codec set_quality set_audio stored refused
  set_key-HasNoEffect key value = ground arith

  act-HasNoEffect : (path : List ℕ) (form : TextMap) → HasNoEffect ans st (act o ans st path form)
  unfolding act make_pin remove_screen refused
  act-HasNoEffect path form =
      ground
        (arith, set_key-HasNoEffect (text_at (codes "key") form) (text_at (codes "value") form))

  -- A request that is answered by 400 has changed no setting and no file; what it may have tried is
  -- the login item or the removal of a virtual screen, which failed, and nothing else.
  pub handle-refused :
      (req : Request)
      → ((handle o ans st req).response.status ≢ 400)
        ⊎ (((handle o ans st req).state ≡ st)
            × (((handle o ans st req).calls ≡ [])
                ⊎ (((handle o ans st req).calls ≡ set_autostart true ∷ [])
                    × (ans.autostart_set ≡ false))
                ⊎ (((handle o ans st req).calls ≡ set_autostart false ∷ [])
                    × (ans.autostart_set ≡ false))
                ⊎ ((id : ℕ) × ((handle o ans st req).calls ≡ remove_virtual id ∷ [])
                    × (ans.remove_virtual id ≡ false))))
  unfolding serve_action is_empty
  handle-refused req = elim (handle-IsTrusted o ans st req) [
    | inl (_, done) ↦ ground (arith, done, act-HasNoEffect req.path (parse_form req.body))
    | inr (_, same, none_made) ↦ inr (same, inl none_made)
  ]
