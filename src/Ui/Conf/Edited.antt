-- ===== src/Ui/Conf/Edited.antt =====
-- host/src/ui/ui_common.cpp: which lines a save of host.conf changes.
use immersive.Base.{
  ℕ, ◌≡◌, ◌≢◌, ◌⊎◌, refl, ap, ◌∙◌, inl, inr, true, false, List, [], ◌∷◌, ◌++◌, arith, if◌then◌else◌,
  Bool-cases, codes, text_eq, text_eq_iff, is_empty, starts_with,
}
use mathlib.Core.Path.{ap₂}
use immersive.Ui.Conf.{
  Line, read_lines, set_value, set_line, has_key, head_lines, is_marked, Disk, save_host_conf_key,
}
use immersive.Ui.Conf.RoundTrip.{IsLine, read_lines-new_conf, save_host_conf_key-written}

module _ (key value : List ℕ) where
  -- Line for line the same, but for the value in the lines of the key.
  pub IsEdited : (old new : List Line) → Type 0
  IsEdited [] new = new ≡ []
  IsEdited (l ∷ ls) [] = ⊥
  IsEdited (l ∷ ls) (m ∷ ms) =
      (m.key ≡ l.key)
      × (((l.key ≡ key) × (m.value ≡ value)) ⊎ ((l.key ≢ key) × (m.value ≡ l.value)))
      × IsEdited ls ms

  -- Some line is of the key.
  pub HasLine : List Line → Type 0
  HasLine [] = ⊥
  HasLine (l ∷ ls) = (l.key ≡ key) ⊎ HasLine ls

  -- The line that is put behind the old ones, if none of them is of the key.
  pub IsTail : (old tail : List Line) → Type 0
  IsTail old tail =
      (HasLine old × (tail ≡ []))
      ⊎ ((HasLine old → ⊥) × (tail ≡ record { key = key; value = value } ∷ []))

  other_key : (l : Line) → text_eq l.key key ≡ false → l.key ≢ key
  other_key l h e = ground (arith, h, (text_eq_iff l.key key).1 e)

  set_value-IsEdited : (ls : List Line) → IsEdited ls (set_value key value ls)
  unfolding IsEdited set_value
  set_value-IsEdited [] = refl
  set_value-IsEdited (l ∷ ls) = elim (Bool-cases (text_eq l.key key)) [
    | inl same ↦ rw same (refl, inl ((text_eq_iff l.key key).0 same, refl), set_value-IsEdited ls)
    | inr other ↦ rw other (refl, inr (other_key l other, refl), set_value-IsEdited ls)
  ]

  has_key-HasLine : (ls : List Line) → has_key key ls ≡ true → HasLine ls
  unfolding HasLine has_key
  has_key-HasLine [] h = absurd (ground arith)
  has_key-HasLine (l ∷ ls) h = elim (Bool-cases (text_eq l.key key)) [
    | inl same ↦ inl ((text_eq_iff l.key key).0 same)
    | inr other ↦ inr (has_key-HasLine ls (ground (arith, other, h)))
  ]

  HasLine-has_key : (ls : List Line) → HasLine ls → has_key key ls ≡ true
  unfolding HasLine has_key
  HasLine-has_key [] h = absurd h
  HasLine-has_key (l ∷ ls) (inl e) = ground (arith, (text_eq_iff l.key key).1 e)
  HasLine-has_key (l ∷ ls) (inr h) = ground (arith, HasLine-has_key ls h)

-- The lines begin with a comment of the panel's.
pub BeginsMarked : List Line → Type 0
BeginsMarked [] = ⊥
BeginsMarked (l ∷ ls) = (l.key ≡ []) × ((more : List ℕ) × (l.value ≡ codes "# Immersive-2" ++ more))

starts_with-append : (p s : List ℕ) → starts_with p s ≡ true → (more : List ℕ) × (s ≡ p ++ more)
unfolding starts_with
starts_with-append [] s h = (s, refl)
starts_with-append (c ∷ p) [] h = absurd (ground arith)
starts_with-append (c ∷ p) (d ∷ s) h =
    let (more, e) = starts_with-append p s (ground (arith, h)) in
    (more, ap₂ ◌∷◌ (ground (arith, h)) e)

append-starts_with : (p more : List ℕ) → starts_with p (p ++ more) ≡ true
unfolding starts_with
append-starts_with [] more = refl
append-starts_with (c ∷ p) more = ground (arith, append-starts_with p more)

is_empty-nil : (s : List ℕ) → is_empty s ≡ true → s ≡ []
unfolding is_empty
is_empty-nil [] h = refl
is_empty-nil (c ∷ s) h = absurd (ground arith)

is_marked-BeginsMarked : (ls : List Line) → is_marked ls ≡ true → BeginsMarked ls
unfolding is_marked BeginsMarked
is_marked-BeginsMarked [] h = absurd (ground arith)
is_marked-BeginsMarked (l ∷ ls) h = (
  is_empty-nil l.key (ground (arith, h)),
  starts_with-append (codes "# Immersive-2") l.value (ground (arith, h)),
)

BeginsMarked-is_marked : (ls : List Line) → BeginsMarked ls → is_marked ls ≡ true
unfolding is_marked BeginsMarked is_empty
BeginsMarked-is_marked [] h = absurd h
BeginsMarked-is_marked (l ∷ ls) (e, (more, begins)) =
    rw (e, begins) (append-starts_with (codes "# Immersive-2") more)

-- Whatever text host.conf holds, a key and a value that stand on one line and are read back from it
-- are saved, if the file is written and renamed, so that the new file reads as these lines: the two
-- head lines of the panel, unless what follows begins with its mark; then every line of the old file
-- in its place, comments too, with its key, and its value but in the lines of the key, which hold
-- the new one; and, if there was no line of the key, one with the new value at the end.
pub read_lines-save_host_conf_key :
    (disk : Disk) (text key value : List ℕ)
    → disk.written ≡ true
    → disk.renamed ≡ true
    → IsLine (record { key = key; value = value })
    → (head body tail : List Line) × (read_lines (save_host_conf_key disk text key value).0
        ≡ head ++ (body ++ tail))
      × IsEdited key value (read_lines text) body
      × IsTail key value (read_lines text) tail
      × (((head ≡ []) × BeginsMarked (body ++ tail))
          ⊎ ((head ≡ head_lines) × (BeginsMarked (body ++ tail) → ⊥)))
unfolding IsTail set_line
read_lines-save_host_conf_key disk text key value w r new =
    let old = read_lines text in
    let lines = set_line key value old in
    let tail : List Line =
      if has_key key old then [] else record { key = key; value = value } ∷ [] in
    (
      if is_marked lines then [] else head_lines,
      set_value key value old,
      tail,
      ap read_lines (save_host_conf_key-written disk text key value w r)
          ∙ read_lines-new_conf text key value new,
      set_value-IsEdited key value old,
      elim (Bool-cases (has_key key old)) [
        | inl there ↦ rw there (inl (has_key-HasLine key value old there, refl))
        | inr absent ↦
            rw absent (inr ((λ h. ground (arith, absent, HasLine-has_key key value old h)), refl))
      ],
      elim (Bool-cases (is_marked lines)) [
        | inl marked ↦ rw marked (inl (refl, is_marked-BeginsMarked lines marked))
        | inr bare ↦
            rw bare (inr (refl, (λ h. ground (arith, bare, BeginsMarked-is_marked lines h))))
      ],
    )
