-- ===== src/Ui/Panel/Cookies.antt =====
-- host/src/ui/panel.cpp: the panel finds its key in a Cookie header.
use immersive.Base.{
  ℕ, zero, suc, ◌+◌, ◌/◌, ◌%◌, ◌<◌, ◌≡◌, refl, sym, ◌∙◌, ◌↔◌, ◌⊎◌, inl, inr, true, false, List, [],
  ◌∷◌, ◌++◌, some, arith, ◌==◌, Bool-cases, Option-cases, codes, text_eq_iff, text_eq_self,
  All-append, ltb, decimal, decimal_digits, before, behind, pieces, skip_while,
}
use mathlib.Core.Path.{subst, ap₂}
use immersive.Ui.Conf.Trim.{Lacks, Lacks-contains}
use immersive.Ui.Form.Secret.{same_secret_iff}
use immersive.Ui.Actions.{Options}
use immersive.Ui.Panel.{cookie_name, is_key_cookie, any_cookie, authorized}

before-behind : (c : ℕ) (s t : List ℕ) → behind c s ≡ some t → s ≡ before c s ++ c ∷ t
unfolding before behind
before-behind c [] t e = absurd (ground arith)
before-behind c (d ∷ s) t e = ground (arith, before-behind c s t)

split-at :
    (c : ℕ) (s t : List ℕ)
    → Lacks c s
    → (before c (s ++ c ∷ t) ≡ s) × (behind c (s ++ c ∷ t) ≡ some t)
unfolding before behind
split-at c [] t h = ground arith
split-at c (d ∷ s) t h = ground (arith, h.0, split-at c s t h.1)

decimal_digits-Lacks : (fuel n : ℕ) → Lacks b'=' (decimal_digits fuel n)
unfolding decimal_digits
decimal_digits-Lacks zero n = tt
decimal_digits-Lacks (suc fuel) n = elim (Bool-cases (ltb n 10)) [
  | inl one ↦ rw one (ground (arith, one), tt)
  | inr more ↦ rw more (
      All-append (λ d. (d == b'=') ≡ false) (decimal_digits fuel (n / 10)) ((48 + n % 10) ∷ [])
        (decimal_digits-Lacks fuel (n / 10)) (digit (n % 10) (omega arith), tt))
]
  where
    digit : (k : ℕ) → k < 10 → (48 + k == b'=') ≡ false
    digit k h = ground arith

cookie_name-Lacks : (o : Options) → Lacks b'=' (cookie_name o)
unfolding cookie_name decimal
cookie_name-Lacks o =
    All-append (λ d. (d == b'=') ≡ false) (codes "im2panel_") (decimal o.port)
      (Lacks-contains b'=' (codes "im2panel_") refl) (decimal_digits-Lacks (o.port + 1) o.port)

-- The cookie that opens the panel.
pub key_cookie : Options → List ℕ
key_cookie o = cookie_name o ++ b'=' ∷ o.token

is_key_cookie_iff :
    (o : Options) (part : List ℕ) → (is_key_cookie o part ≡ true) ↔ (part ≡ key_cookie o)
unfolding is_key_cookie key_cookie
is_key_cookie_iff o part = (forward, backward)
  where
    forward : is_key_cookie o part ≡ true → part ≡ key_cookie o
    forward h = elim (Option-cases (behind b'=' part)) [
      | inl missing ↦ absurd (ground (arith, missing, h))
      | inr (value, found) ↦
          before-behind b'=' part value found
          ∙ ap₂ (λ (n v : List ℕ). n ++ b'=' ∷ v)
              ((text_eq_iff (before b'=' part) (cookie_name o)).0 (ground (arith, found, h)))
              ((same_secret_iff value o.token).0 (ground (arith, found, h)))
    ]

    backward : part ≡ key_cookie o → is_key_cookie o part ≡ true
    backward e =
        let parts = split-at b'=' (cookie_name o) o.token (cookie_name-Lacks o) in
        subst (λ p. is_key_cookie o p ≡ true) (sym e)
          (ground
            (arith, parts, text_eq_self (cookie_name o), (same_secret_iff o.token o.token).1 refl))

-- One of the elements has the property.
abbrev pub AnyOf : (List ℕ → Type 0) → List (List ℕ) → Type 0
AnyOf P [] = ⊥
AnyOf P (x ∷ xs) = P x ⊎ AnyOf P xs

-- One of the cookies of a Cookie header, its leading spaces gone, is that cookie.
abbrev pub HoldsKey : Options → List ℕ → Type 0
HoldsKey o cookies =
    AnyOf (λ part. skip_while (λ c. c == 32) part ≡ key_cookie o) (pieces b';' cookies)

any_cookie_iff :
    (o : Options) (parts : List (List ℕ))
    → (any_cookie o parts ≡ true)
      ↔ AnyOf (λ part. skip_while (λ c. c == 32) part ≡ key_cookie o) parts
unfolding any_cookie
any_cookie_iff o [] = ground arith
any_cookie_iff o (part ∷ parts) =
    ground (arith, is_key_cookie_iff o (skip_while (λ c. c == 32) part), any_cookie_iff o parts)

pub authorized_iff :
    (o : Options) (cookies : List ℕ) → (authorized o cookies ≡ true) ↔ HoldsKey o cookies
unfolding authorized
authorized_iff o cookies = any_cookie_iff o (pieces b';' cookies)
