-- ===== src/Ui/Conf/Load.antt =====
-- host/src/ui/ui_common.cpp: what load_host_conf makes of a saved key.
use immersive.Base.{
  ℕ, ◌≡◌, refl, ap, sym, ◌∙◌, Bool, true, false, List, [], ◌∷◌, ◌++◌, append-nil, arith,
  if◌then◌else◌, inl, inr, Bool-cases, text_eq, text_eq_iff,
}
use immersive.Ui.Conf.{
  Settings, Line, load_line, load_lines, load_host_conf, read_lines, set_value, set_line, has_key,
  head_lines, is_marked, new_conf,
}
use immersive.Ui.Conf.RoundTrip.{IsLine, read_lines-new_conf}

-- The line sets its field to one value: it overrules each other line of its key, and can change
-- places with the line of another key.
pub record IsSetting (key value : List ℕ) : Type 0 where
  pub overrules :
      (s : Settings) (w : List ℕ)
      → load_line
          (load_line s (record { key = key; value = w }))
          (record { key = key; value = value })
        ≡ load_line s (record { key = key; value = value })
  pub trades :
      (s : Settings) (l : Line)
      → text_eq l.key key ≡ false
      → load_line (load_line s l) (record { key = key; value = value })
        ≡ load_line (load_line s (record { key = key; value = value })) l

load_lines-append :
    (s : Settings) (ls ms : List Line) → load_lines s (ls ++ ms) ≡ load_lines (load_lines s ls) ms
unfolding load_lines
load_lines-append s [] ms = refl
load_lines-append s (l ∷ ls) ms = load_lines-append (load_line s l) ls ms

module _ (key value : List ℕ) (setting : IsSetting key value) where
  abbrev new : Line
  new = record { key = key; value = value }

  -- A line in front of which the new one stands, and the line that takes its place.
  load_line-new :
      (s : Settings) (l : Line)
      → load_line (load_line s new) (if text_eq l.key key then record l { value = value } else l)
        ≡ load_line (load_line s l) new
  load_line-new s l = elim (Bool-cases (text_eq l.key key)) [
    | inl same ↦
        let k = (text_eq_iff l.key key).0 same in
        rw same (
          ap (λ (j : List ℕ). load_line (load_line s new) (record { key = j; value = value })) k
          ∙ setting.overrules s value
          ∙ sym (setting.overrules s l.value)
          ∙ ap (λ (j : List ℕ). load_line (load_line s (record { key = j; value = l.value })) new)
              (sym k))
    | inr other ↦ rw other (sym (setting.trades s l other))
  ]

  -- A line that stands in front of its like acts as if it came last.
  load_lines-set_value-new :
      (s : Settings) (ls : List Line)
      → load_lines (load_line s new) (set_value key value ls) ≡ load_line (load_lines s ls) new
  unfolding load_lines set_value
  load_lines-set_value-new s [] = refl
  load_lines-set_value-new s (l ∷ ls) =
      ap (λ t. load_lines t (set_value key value ls)) (load_line-new s l)
      ∙ load_lines-set_value-new (load_line s l) ls

  overruled :
      (s : Settings) (l : Line)
      → text_eq l.key key ≡ true
      → load_line (load_line s l) new ≡ load_line s new
  overruled s l same =
      ap (λ (j : List ℕ). load_line (load_line s (record { key = j; value = l.value })) new)
        ((text_eq_iff l.key key).0 same)
      ∙ setting.overrules s l.value

  load_lines-set_value :
      (s : Settings) (ls : List Line)
      → has_key key ls ≡ true
      → load_lines s (set_value key value ls) ≡ load_line (load_lines s ls) new
  unfolding load_lines set_value has_key
  load_lines-set_value s [] h = absurd (ground arith)
  load_lines-set_value s (l ∷ ls) h = elim (Bool-cases (text_eq l.key key)) [
    | inl same ↦ rw same (
        ap
          (λ (j : List ℕ).
            load_lines (load_line s (record { key = j; value = value })) (set_value key value ls))
          ((text_eq_iff l.key key).0 same)
        ∙ ap (λ t. load_lines t (set_value key value ls)) (sym (overruled s l same))
        ∙ load_lines-set_value-new (load_line s l) ls)
    | inr other ↦ rw other (load_lines-set_value (load_line s l) ls (ground (arith, other, h)))
  ]

  set_value-absent : (ls : List Line) → has_key key ls ≡ false → set_value key value ls ≡ ls
  unfolding set_value has_key
  set_value-absent [] h = refl
  set_value-absent (l ∷ ls) h = ground (arith, h, set_value-absent ls)

  load_lines-set_line :
      (s : Settings) (ls : List Line)
      → load_lines s (set_line key value ls) ≡ load_line (load_lines s ls) new
  unfolding set_line load_lines
  load_lines-set_line s ls = elim (Bool-cases (has_key key ls)) [
    | inl old ↦
        rw old
          (ap (load_lines s) (append-nil (set_value key value ls)) ∙ load_lines-set_value s ls old)
    | inr fresh ↦ rw (fresh, set_value-absent ls fresh) (load_lines-append s ls (new ∷ []))
  ]

  load_lines-head :
      (s : Settings) (marked : Bool) (ls : List Line)
      → load_lines s ((if marked then [] else head_lines) ++ ls) ≡ load_lines s ls
  unfolding load_lines load_line text_eq
  load_lines-head s true ls = refl
  load_lines-head s false ls = refl

  -- Saving such a setting and loading the file again is loading the old file and then the setting.
  pub load-new_conf :
      (text : List ℕ) (s : Settings)
      → IsLine new
      → load_host_conf (new_conf text key value) s ≡ load_line (load_host_conf text s) new
  unfolding load_host_conf
  load-new_conf text s line =
      let lines = set_line key value (read_lines text) in
      ap (load_lines s) (read_lines-new_conf text key value line)
      ∙ load_lines-head s (is_marked lines) lines
      ∙ load_lines-set_line s (read_lines text)
