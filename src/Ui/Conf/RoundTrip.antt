-- ===== src/Ui/Conf/RoundTrip.antt =====
-- host/src/ui/ui_common.cpp: what is read back from a host.conf that new_conf makes.
use immersive.Base.{
  ℕ, ◌≡◌, true, refl, ap, sym, ◌∙◌, false, ◌||◌, List, [], ◌∷◌, ◌++◌, All, Option, none, some,
  arith, ◌==◌, if◌then◌else◌, inl, inr, Bool-cases, All-append, append_assoc, codes, text_eq,
  text_eq_iff, is_empty, contains, skip_while, before, behind, pieces, map, get_or,
}
use mathlib.Core.Path.{subst, ap₂}
use immersive.Ui.Conf.{
  trim, kept, key_line, split_line, Line, read_line, read_lines, line_text, print_line, print_lines,
  set_value, set_line, has_key, head_lines, is_marked, new_conf, Disk, save_host_conf_key,
}
use immersive.Ui.Conf.Trim.{
  Lacks, Lacks-contains, before-line, behind-line, Lacks-before, All-before, All-behind, All-trim,
  trim_idem, trim-append_blank, pieces-line, pieces-Lacks,
}

-- The line is on one line, and is read back from its text as it is.
pub record IsLine (l : Line) : Type 0 where
  pub one_line : Lacks 10 (line_text l)
  pub rereads : read_line (line_text l) ≡ l

All-text :
    (c : ℕ) (s t : List ℕ)
    → Lacks c s
    → Lacks c (32 ∷ 61 ∷ 32 ∷ t)
    → Lacks c (s ++ (codes " = " ++ t))
All-text c s t h k = All-append _ s (32 ∷ 61 ∷ 32 ∷ t) h k

-- A key and a value are read back, once both are trimmed.
read_line-pair :
    (raw v : List ℕ)
    → Lacks b'=' raw
    → is_empty (trim raw) ≡ false
    → (get_or (trim raw) 0 0 == b'#') ≡ false
    → read_line (trim raw ++ 32 ∷ b'=' ∷ v) ≡ record { key = trim raw; value = trim v }
unfolding read_line split_line key_line
read_line-pair raw v lacks some_key no_comment =
    let no_sign = All-trim (λ d. (d == b'=') ≡ false) raw lacks in
    rw
      (behind-line b'=' 32 (trim raw) v no_sign refl, before-line b'=' 32 (trim raw) v no_sign refl)
      (rw (trim-append_blank raw some_key) (rw (some_key, no_comment) refl))

skips_blank : (v : List ℕ) → trim (32 ∷ v) ≡ trim v
unfolding trim skip_while
skips_blank v = refl

pair-IsLine :
    (raw v : List ℕ)
    → Lacks b'=' raw
    → is_empty (trim raw) ≡ false
    → (get_or (trim raw) 0 0 == b'#') ≡ false
    → Lacks 10 (trim raw)
    → Lacks 10 (trim v)
    → IsLine (record { key = trim raw; value = trim v })
unfolding line_text
pair-IsLine raw v no_sign some_key no_comment one_key one_value = record {
  one_line =
      rw some_key (All-text 10 (trim raw) (trim v) one_key (refl, (refl, (refl, one_value))));
  rereads = rw some_key (
      read_line-pair raw (32 ∷ trim v) no_sign some_key no_comment
      ∙ ap (λ (w : List ℕ). record { key = trim raw; value = w })
          (skips_blank (trim v) ∙ trim_idem v));
}

kept-IsLine : (line : List ℕ) → Lacks 10 line → read_line line ≡ kept line → IsLine (kept line)
unfolding line_text is_empty
kept-IsLine line h e = record { one_line = h; rereads = e }

split_line-IsLine :
    (line : List ℕ) (value : Option (List ℕ))
    → Lacks 10 line
    → behind b'=' line ≡ value
    → IsLine (split_line line (before b'=' line) value)
unfolding split_line read_line
split_line-IsLine line none h e = kept-IsLine line h (ap (split_line line (before b'=' line)) e)
split_line-IsLine line (some value) h e =
    let raw = before b'=' line in
    let value_line = All-trim (λ d. (d == 10) ≡ false) value (All-behind _ b'=' line value e h) in
    let raw_line = All-trim (λ d. (d == 10) ≡ false) raw (All-before _ b'=' line h) in
    elim (Bool-cases (is_empty (trim raw) || get_or (trim raw) 0 0 == b'#')) [
      | inl odd ↦
          let is_kept : key_line line (trim raw) value ≡ kept line =
            unfold key_line in rw odd refl in
          subst IsLine (sym is_kept) (kept-IsLine line h (ap (split_line line raw) e ∙ is_kept))
      | inr key ↦
          let is_pair : key_line line (trim raw) value
              ≡ record { key = trim raw; value = trim value } =
            unfold key_line in rw key refl in
          subst IsLine (sym is_pair) (
            pair-IsLine raw value (Lacks-before b'=' line) (ground (arith, key))
              (ground (arith, key)) raw_line value_line)
    ]

read_lines-IsLine : (text : List ℕ) → All IsLine (read_lines text)
unfolding read_lines
read_lines-IsLine text = read_all (pieces 10 text) (pieces-Lacks 10 text)
  where
    read_all : (ps : List (List ℕ)) → All (Lacks 10) ps → All IsLine (map read_line ps)
    read_all [] h = tt
    read_all (p ∷ ps) h = (split_line-IsLine p (behind b'=' p) h.0 refl, read_all ps h.1)

print_lines-read : (ls : List Line) → All IsLine ls → read_lines (print_lines ls) ≡ ls
unfolding read_lines print_lines print_line line_text
print_lines-read [] h = refl
print_lines-read (l ∷ ls) h = rw (append_assoc (line_text l) (10 ∷ []) (print_lines ls)) (
    rw (pieces-line 10 (line_text l) (print_lines ls) h.0.one_line)
      (ap₂ ◌∷◌ h.0.rereads (print_lines-read ls h.1)))

set_value-IsLine :
    (key value : List ℕ) (ls : List Line)
    → IsLine (record { key = key; value = value })
    → All IsLine ls
    → All IsLine (set_value key value ls)
unfolding set_value
set_value-IsLine key value [] new h = tt
set_value-IsLine key value (l ∷ ls) new h = elim (Bool-cases (text_eq l.key key)) [
  | inl same ↦
      let renamed : record l { value = value } ≡ record { key = key; value = value } =
        ap (λ (k : List ℕ). record { key = k; value = value }) ((text_eq_iff l.key key).0 same) in
      rw same (subst IsLine (sym renamed) new, set_value-IsLine key value ls new h.1)
  | inr other ↦ rw other (h.0, set_value-IsLine key value ls new h.1)
]

set_line-IsLine :
    (key value : List ℕ) (ls : List Line)
    → IsLine (record { key = key; value = value })
    → All IsLine ls
    → All IsLine (set_line key value ls)
unfolding set_line
set_line-IsLine key value ls new h =
    All-append IsLine (set_value key value ls) _ (set_value-IsLine key value ls new h)
      (elim (Bool-cases (has_key key ls)) [ inl old ↦ rw old tt | inr fresh ↦ rw fresh (new, tt) ])

kept_literal :
    (line : List ℕ) → contains line 10 ≡ false → read_line line ≡ kept line → IsLine (kept line)
kept_literal line h = kept-IsLine line (Lacks-contains 10 line h)

head_lines-IsLine : All IsLine head_lines
unfolding read_line
head_lines-IsLine = (
  kept_literal (codes "# Immersive-2 host settings, written by its settings panel.") refl refl,
  (kept_literal (codes "# Command-line flags override them for one run.") refl refl, tt),
)

-- The new file reads as the lines that were printed.
pub read_lines-new_conf :
    (text key value : List ℕ)
    → IsLine (record { key = key; value = value })
    → read_lines (new_conf text key value)
      ≡ (if is_marked (set_line key value (read_lines text)) then [] else head_lines)
        ++ set_line key value (read_lines text)
unfolding new_conf
read_lines-new_conf text key value new =
    let lines = set_line key value (read_lines text) in
    let old = set_line-IsLine key value (read_lines text) new (read_lines-IsLine text) in
    print_lines-read ((if is_marked lines then [] else head_lines) ++ lines) (
      All-append IsLine (if is_marked lines then [] else head_lines) lines
        (elim (Bool-cases (is_marked lines)) [
          | inl marked ↦ rw marked tt
          | inr bare ↦ rw bare head_lines-IsLine
        ])
        old)

pub save_host_conf_key-written :
    (disk : Disk) (text key value : List ℕ)
    → disk.written ≡ true
    → disk.renamed ≡ true
    → (save_host_conf_key disk text key value).0 ≡ new_conf text key value
unfolding save_host_conf_key
save_host_conf_key-written disk text key value w r = ground (arith, w, r)
