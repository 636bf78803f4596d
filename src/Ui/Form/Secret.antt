-- ===== src/Ui/Form/Secret.antt =====
-- host/src/ui/panel.cpp: the comparison of secrets that does not stop at the first difference.
use Prim.Native.Nat.{digits, bit_or-bitwise}
use immersive.Base.{
  ℕ, zero, suc, ◌/◌, ◌≤◌, max, ◌≡◌, refl, ap, sym, ◌∙◌, ◌↔◌, inl, inr, true, List, [], ◌∷◌, arith,
  ◌==◌, length, bit_or, bit_xor, Bool-cases,
}
use immersive.Base.Xor.{bit_xor_comm, bit_xor_self, bit_xor_assoc, bit_xor-zero}
use mathlib.Core.Path.{subst, ap₂}
use immersive.Ui.Form.{differences, same_secret}

abbrev keep : ℕ → ℕ
keep b = b

or_digits_zero : (fuel a b : ℕ) → a ≤ fuel → digits keep max fuel a b ≡ 0 → (a ≡ 0) × (b ≡ 0)
or_digits_zero zero zero b h e = (refl, e)
or_digits_zero zero (suc a) b h e = absurd (omega arith)
or_digits_zero (suc fuel) zero b h e = (refl, e)
or_digits_zero (suc fuel) (suc a) b h e =
    omega (arith, or_digits_zero fuel (suc a / 2) (b / 2) (omega arith) (omega arith))

bit_or-zero : (a b : ℕ) → bit_or a b ≡ 0 → (a ≡ 0) × (b ≡ 0)
bit_or-zero a b e = or_digits_zero a a b (omega arith) (sym (bit_or-bitwise a b) ∙ e)

bit_xor-eq : (a b : ℕ) → bit_xor a b ≡ 0 → a ≡ b
bit_xor-eq a b e =
    sym (bit_xor-zero a)
    ∙ ap (bit_xor a) (sym (bit_xor_self b))
    ∙ sym (bit_xor_assoc a b b)
    ∙ ap (λ x. bit_xor x b) e
    ∙ bit_xor_comm 0 b
    ∙ bit_xor-zero b

differences-zero :
    (diff : ℕ) (s t : List ℕ)
    → length s ≡ length t
    → differences diff s t ≡ 0
    → (diff ≡ 0) × (s ≡ t)
unfolding differences
differences-zero diff [] [] l e = (e, refl)
differences-zero diff [] (d ∷ t) l e = absurd (omega arith)
differences-zero diff (c ∷ s) [] l e = absurd (omega arith)
differences-zero diff (c ∷ s) (d ∷ t) l e =
    let later = differences-zero (bit_or diff (bit_xor c d)) s t (omega arith) e in
    let now = bit_or-zero diff (bit_xor c d) later.0 in
    (now.0, ap₂ ◌∷◌ (bit_xor-eq c d now.1) later.1)

differences_self : (s : List ℕ) → differences 0 s s ≡ 0
unfolding differences
differences_self [] = refl
differences_self (c ∷ s) = rw (bit_xor_self c) (differences_self s)

-- The comparison that looks at every byte tells exactly whether two secrets are the same text.
pub same_secret_iff : (s t : List ℕ) → (same_secret s t ≡ true) ↔ (s ≡ t)
unfolding same_secret
same_secret_iff s t = (forward, backward)
  where
    forward : same_secret s t ≡ true → s ≡ t
    forward h = elim (Bool-cases (length s == length t)) [
      | inl same ↦ (differences-zero 0 s t (ground (arith, same)) (ground (arith, same, h))).1
      | inr other ↦ absurd (ground (arith, other, h))
    ]

    backward : s ≡ t → same_secret s t ≡ true
    backward e = subst (λ u. same_secret s u ≡ true) e (ground (arith, differences_self s))
