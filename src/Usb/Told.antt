-- ===== src/Usb/Told.antt =====
-- host/src/usb/adb_reverse.cpp: what a round tells of one headset.
use immersive.Base.{
  ℕ, ◌≡◌, ◌∙◌, sym, refl, inl, inr, ap, Bool, true, false, ◌||◌, List, [], ◌∷◌, ◌++◌, Option, none,
  some, if◌then◌else◌, codes, text_eq, text_eq_iff, text_eq_self, Bool-cases,
}
use mathlib.Core.Path.{subst}
use immersive.Ui.Form.{TextMap, find_text}
use immersive.Usb.{
  Notice, silent, answers_again, report, is_passing, is_known, changed, missing, unplugged,
}
use immersive.Usb.Order.{IsOrdered, find_text-IsAbove}

-- What a reader of the notices knows of a headset, who knew `state` before.
unfoldable pub told : (state serial : List ℕ) → List Notice → List ℕ
told state serial [] = state
told state serial (silent _ ∷ ns) = told state serial ns
told state serial (answers_again ∷ ns) = told state serial ns
told state serial (report s new ∷ ns) = told (if text_eq s serial then new else state) serial ns

pub told-append :
    (state serial : List ℕ) (ms ns : List Notice)
    → told state serial (ms ++ ns) ≡ told (told state serial ms) serial ns
unfolding told
told-append state serial [] ns = refl
told-append state serial (silent _ ∷ ms) ns = told-append state serial ms ns
told-append state serial (answers_again ∷ ms) ns = told-append state serial ms ns
told-append state serial (report s new ∷ ms) ns =
    told-append (if text_eq s serial then new else state) serial ms ns

-- The state in which adb last showed a headset.
unfoldable pub shown : Option (List ℕ) → List ℕ
shown none = codes "gone"
shown (some state) = state

unfoldable pub state_of : List ℕ → TextMap → List ℕ
state_of serial last = shown (find_text serial last)

-- What it is after a round that shows the headset in a state, or does not show it.
after_change : List ℕ → (List ℕ → Bool) → Option (List ℕ) → List ℕ
after_change state known none = state
after_change state known (some new) = if is_passing new || known new then state else new

after_unplug : (state : List ℕ) (now last : Option (List ℕ)) → List ℕ
after_unplug state (some _) last = state
after_unplug state none none = state
after_unplug state none (some _) = codes "gone"

after_unplug_same : (state : List ℕ) (now : Option (List ℕ)) → after_unplug state now none ≡ state
unfolding after_unplug
after_unplug_same state none = refl
after_unplug_same state (some _) = refl

after_unplug_twice :
    (state : List ℕ) (now last : Option (List ℕ)) (old : List ℕ)
    → after_unplug (after_unplug state now (some old)) now last ≡ after_unplug state now (some old)
unfolding after_unplug
after_unplug_twice state (some _) last old = refl
after_unplug_twice state none none old = refl
after_unplug_twice state none (some _) old = refl

was : Option (List ℕ) → List ℕ → Bool
was last state = elim last [ none ↦ false | some old ↦ text_eq old state ]

-- A reader who knew the state that was shown last, unless it was a passing one, knows that of now.
after-shown :
    (state : List ℕ) (last now : Option (List ℕ))
    → is_passing (shown now) ≡ false
    → (is_passing (shown last) ≡ false → state ≡ shown last)
    → after_unplug (after_change state (was last) now) now last ≡ shown now
unfolding after_unplug after_change was shown is_passing text_eq
after-shown state none none steady knew = knew refl
after-shown state (some old) none steady knew = refl
after-shown state none (some new) steady knew = rw steady refl
after-shown state (some old) (some new) steady knew = elim (Bool-cases (text_eq old new)) [
  | inl same ↦
      let e = (text_eq_iff old new).0 same in
      rw (steady, same) (knew (subst (λ x. is_passing x ≡ false) (sym e) steady) ∙ e)
  | inr other ↦ rw (steady, other) refl
]

module _ (serial : List ℕ) where
  told-missing :
      (state s : List ℕ) (now : Option (List ℕ)) (old : List ℕ) (rest : List Notice)
      → told state serial (missing s now rest)
        ≡ told (if text_eq s serial then after_unplug state now (some old) else state) serial rest
  unfolding told missing after_unplug
  told-missing state s none old rest = refl
  told-missing state s (some _) old rest = elim (Bool-cases (text_eq s serial)) [
    | inl same ↦ rw same refl
    | inr other ↦ rw other refl
  ]

  told_report :
      (state s new : List ℕ) (b : Bool) (rest : List Notice)
      → text_eq s serial ≡ b
      → told state serial (report s new ∷ rest) ≡ told (if b then new else state) serial rest
  unfolding told
  told_report state s new b rest e = ap (λ x. told (if x then new else state) serial rest) e

  told-unplugged :
      (state : List ℕ) (last now : TextMap)
      → told state serial (unplugged last now)
        ≡ after_unplug state (find_text serial now) (find_text serial last)
  unfolding told unplugged find_text
  told-unplugged state [] now = sym (after_unplug_same state (find_text serial now))
  told-unplugged state ((s, old) ∷ last) now =
      told-missing state s (find_text s now) old (unplugged last now)
      ∙ elim (Bool-cases (text_eq s serial)) [
        | inl same ↦ rw same (
            told-unplugged (after_unplug state (find_text s now) (some old)) last now
            ∙ (ap
                  (λ x.
                    after_unplug (after_unplug state (find_text x now) (some old))
                      (find_text serial now) (find_text serial last))
                  ((text_eq_iff s serial).0 same)
                ∙ after_unplug_twice state (find_text serial now) (find_text serial last) old))
        | inr other ↦ rw other (told-unplugged state last now)
      ]

  module _ (state : List ℕ) (last : TextMap) where
    -- The entry of the headset itself, behind which it does not stand again.
    told_own :
        (new : List ℕ) (now : TextMap)
        → ((v : List ℕ) → told v serial (changed last now) ≡ v)
        → told state serial (changed last ((serial, new) ∷ now))
          ≡ after_change state (is_known last serial) (some new)
    unfolding told changed after_change
    told_own new now rest = elim (Bool-cases (is_passing new || is_known last serial new)) [
      | inl quiet ↦ rw quiet (rest state)
      | inr loud ↦
          rw loud
            (told_report state serial new true (changed last now) (text_eq_self serial) ∙ rest new)
    ]

  told-changed :
      (state : List ℕ) (last now : TextMap)
      → IsOrdered now
      → told state serial (changed last now)
        ≡ after_change state (is_known last serial) (find_text serial now)
  unfolding told changed find_text IsOrdered after_change
  told-changed state last [] h = refl
  told-changed state last ((s, new) ∷ now) h = elim (Bool-cases (text_eq s serial)) [
    | inl same ↦
        let e = (text_eq_iff s serial).0 same in
        let absent = subst (λ x. find_text x now ≡ none) e (find_text-IsAbove s now h.0) in
        rw same (
          subst
            (λ x.
              told state serial (changed last ((x, new) ∷ now))
              ≡ after_change state (is_known last serial) (some new))
            (sym e)
            (told_own state last new now (λ v.
              told-changed v last now h.1 ∙ ap (after_change v (is_known last serial)) absent)))
    | inr other ↦ elim (Bool-cases (is_passing new || is_known last s new)) [
      | inl quiet ↦ rw (quiet, other) (told-changed state last now h.1)
      | inr loud ↦
          rw (loud, other)
            (told_report state s new false (changed last now) other
              ∙ told-changed state last now h.1)
    ]
  ]

  -- What a round tells leaves the reader with the state of now, unless it is a passing one.
  pub told-round :
      (state : List ℕ) (last now : TextMap)
      → IsOrdered now
      → is_passing (state_of serial now) ≡ false
      → (is_passing (state_of serial last) ≡ false → state ≡ state_of serial last)
      → told state serial (changed last now ++ unplugged last now) ≡ state_of serial now
  unfolding state_of is_known was
  told-round state last now h steady knew =
      told-append state serial (changed last now) (unplugged last now)
      ∙ (told-unplugged (told state serial (changed last now)) last now
          ∙ (ap (λ x. after_unplug x (find_text serial now) (find_text serial last))
                (told-changed state last now h)
              ∙ after-shown state (find_text serial last) (find_text serial now) steady knew))
