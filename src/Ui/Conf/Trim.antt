-- ===== src/Ui/Conf/Trim.antt =====
-- host/src/ui/ui_common.cpp: trim, and where a text is cut at a character.
use immersive.Base.{
  ℕ, ◌≡◌, ◌≤◌, length, contains, refl, ap, sym, ◌∙◌, Bool, true, false, ◌&&◌, List, [], ◌∷◌, ◌++◌,
  All, some, arith, ◌==◌, if◌then◌else◌, inl, inr, Bool-cases, is_empty, before, behind, pieces,
  prepend, skip_while, strip_while,
}
use immersive.Ui.Conf.{trim}

-- A text without a given character.
abbrev pub Lacks : ℕ → List ℕ → Type 0
Lacks c = All (λ d. (d == c) ≡ false)

-- As a test that runs on a literal.
pub Lacks-contains : (c : ℕ) (s : List ℕ) → contains s c ≡ false → Lacks c s
Lacks-contains c [] h = tt
Lacks-contains c (d ∷ s) h = (ground (arith, h), Lacks-contains c s (ground (arith, h)))

pub before-line :
    (c b : ℕ) (s t : List ℕ)
    → Lacks c s
    → (b == c) ≡ false
    → before c (s ++ b ∷ c ∷ t) ≡ s ++ b ∷ []
unfolding before
before-line c b [] t h e = ground (arith, e)
before-line c b (d ∷ s) t h e = ground (arith, h.0, before-line c b s t h.1 e)

pub behind-line :
    (c b : ℕ) (s t : List ℕ) → Lacks c s → (b == c) ≡ false → behind c (s ++ b ∷ c ∷ t) ≡ some t
unfolding behind
behind-line c b [] t h e = ground (arith, e)
behind-line c b (d ∷ s) t h e = ground (arith, h.0, behind-line c b s t h.1 e)

pub Lacks-before : (c : ℕ) (s : List ℕ) → Lacks c (before c s)
unfolding before
Lacks-before c [] = tt
Lacks-before c (d ∷ s) = elim (Bool-cases (d == c)) [
  | inl here ↦ rw here tt
  | inr later ↦ rw later (later, Lacks-before c s)
]

module _ (P : ℕ → Type 0) where
  pub All-before : (c : ℕ) (s : List ℕ) → All P s → All P (before c s)
  unfolding before
  All-before c [] h = tt
  All-before c (d ∷ s) h = elim (Bool-cases (d == c)) [
    | inl here ↦ rw here tt
    | inr later ↦ rw later (h.0, All-before c s h.1)
  ]

  pub All-behind : (c : ℕ) (s t : List ℕ) → behind c s ≡ some t → All P s → All P t
  unfolding behind
  All-behind c [] t e h = absurd (ground arith)
  All-behind c (d ∷ s) t e h = ground (arith, h.1, All-behind c s t)

  All-skip_while : (p : ℕ → Bool) (s : List ℕ) → All P s → All P (skip_while p s)
  unfolding skip_while
  All-skip_while p [] h = tt
  All-skip_while p (c ∷ s) h = elim (Bool-cases (p c)) [
    | inl blank ↦ rw blank (All-skip_while p s h.1)
    | inr ink ↦ rw ink h
  ]

  All-strip_while : (p : ℕ → Bool) (s : List ℕ) → All P s → All P (strip_while p s)
  unfolding strip_while
  All-strip_while p [] h = tt
  All-strip_while p (c ∷ s) h = elim (Bool-cases (p c && is_empty (strip_while p s))) [
    | inl blank ↦ rw blank tt
    | inr ink ↦ rw ink (h.0, All-strip_while p s h.1)
  ]

  pub All-trim : (s : List ℕ) → All P s → All P (trim s)
  unfolding trim
  All-trim s h = All-strip_while _ (skip_while _ s) (All-skip_while _ s h)

strip_while_idem : (p : ℕ → Bool) (s : List ℕ) → strip_while p (strip_while p s) ≡ strip_while p s
unfolding strip_while
strip_while_idem p [] = refl
strip_while_idem p (c ∷ s) = ground (arith, strip_while_idem p s)

skip-strip-skip :
    (p : ℕ → Bool) (s : List ℕ)
    → skip_while p (strip_while p (skip_while p s)) ≡ strip_while p (skip_while p s)
unfolding strip_while skip_while
skip-strip-skip p [] = refl
skip-strip-skip p (c ∷ s) = elim (Bool-cases (p c)) [
  | inl blank ↦ rw blank (skip-strip-skip p s)
  | inr ink ↦ ground (arith, ink)
]

strip-append_blank :
    (p : ℕ → Bool) (b : ℕ) (s : List ℕ) → p b ≡ true → strip_while p (s ++ b ∷ []) ≡ strip_while p s
unfolding strip_while
strip-append_blank p b [] h = ground (arith, h)
strip-append_blank p b (c ∷ s) h =
    ap (λ r. if p c && is_empty r then [] else c ∷ r) (strip-append_blank p b s h)

length-skip_while : (p : ℕ → Bool) (s : List ℕ) → length (skip_while p s) ≤ length s
unfolding skip_while
length-skip_while p [] = omega arith
length-skip_while p (c ∷ s) = ground (arith, length-skip_while p s)

skip-append_ink :
    (p : ℕ → Bool) (t s : List ℕ)
    → skip_while p s ≡ s
    → is_empty s ≡ false
    → skip_while p (s ++ t) ≡ s ++ t
unfolding skip_while is_empty
skip-append_ink p t [] e h = absurd (ground arith)
skip-append_ink p t (c ∷ s) e h = elim (Bool-cases (p c)) [
  | inl blank ↦
      let shorter : skip_while p s ≡ c ∷ s =
        sym (ap (λ b. if b then skip_while p s else c ∷ s) blank) ∙ e in
      absurd (omega (arith, length-skip_while p s, ap length shorter))
  | inr ink ↦ rw ink refl
]

pub trim_idem : (s : List ℕ) → trim (trim s) ≡ trim s
unfolding trim
trim_idem s = rw (skip-strip-skip _ s) (strip_while_idem _ (skip_while _ s))

-- A blank behind a trimmed text is trimmed away again.
pub trim-append_blank : (s : List ℕ) → is_empty (trim s) ≡ false → trim (trim s ++ 32 ∷ []) ≡ trim s
unfolding trim
trim-append_blank s h =
    rw (skip-append_ink _ (32 ∷ []) (trim s) (skip-strip-skip _ s) h)
      (strip-append_blank _ 32 (trim s) refl ∙ strip_while_idem _ (skip_while _ s))

pub pieces-line : (c : ℕ) (s t : List ℕ) → Lacks c s → pieces c (s ++ c ∷ t) ≡ s ∷ pieces c t
unfolding pieces
pieces-line c [] t h = ground arith
pieces-line c (d ∷ s) t h = ground (arith, h.0, pieces-line c s t h.1)

prepend-Lacks :
    (c d : ℕ) (ps : List (List ℕ))
    → (d == c) ≡ false
    → All (Lacks c) ps
    → All (Lacks c) (prepend d ps)
unfolding prepend
prepend-Lacks c d [] e h = ((e, tt), tt)
prepend-Lacks c d (p ∷ ps) e h = ((e, h.0), h.1)

pub pieces-Lacks : (c : ℕ) (s : List ℕ) → All (Lacks c) (pieces c s)
unfolding pieces
pieces-Lacks c [] = tt
pieces-Lacks c (d ∷ s) = elim (Bool-cases (d == c)) [
  | inl here ↦ rw here (tt, pieces-Lacks c s)
  | inr later ↦ rw later (prepend-Lacks c d (pieces c s) later (pieces-Lacks c s))
]
