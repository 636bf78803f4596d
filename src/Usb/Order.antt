-- ===== src/Usb/Order.antt =====
-- host/src/usb/adb_reverse.cpp: the std::map of the devices, whose keys stand in order.
use immersive.Base.{
  suc, ◌||◌, ◌==◌, Option, some, codes, before, behind, strip_while, ℕ, ◌≡◌, refl, inl, inr, true,
  false, List, [], ◌∷◌, none, arith, text_eq, text_eq_iff, text_lt, All, All-mono, Bool-cases,
}
use mathlib.Core.Path.{subst}
use immersive.Ui.Form.{TextMap, find_text}
use immersive.Usb.{
  Run, Scan, arm, plain_serial, put_text, scan_device, scan_tab, scan_line, scan_lines,
}

text_lt_self : (s : List ℕ) → text_lt s s ≡ false
unfolding text_lt
text_lt_self [] = refl
text_lt_self (c ∷ s) = ground (arith, text_lt_self s)

text_lt_trans : (s t u : List ℕ) → text_lt s t ≡ true → text_lt t u ≡ true → text_lt s u ≡ true
unfolding text_lt
text_lt_trans s t [] a b = absurd (ground arith)
text_lt_trans s [] (e ∷ u) a b = absurd (ground arith)
text_lt_trans [] (d ∷ t) (e ∷ u) a b = refl
text_lt_trans (c ∷ s) (d ∷ t) (e ∷ u) a b = ground (arith, a, b, text_lt_trans s t u)

-- Of two texts that are not the same one is less.
text_lt_total : (s t : List ℕ) → text_eq t s ≡ false → text_lt s t ≡ false → text_lt t s ≡ true
unfolding text_lt text_eq
text_lt_total [] [] a b = absurd (ground arith)
text_lt_total [] (d ∷ t) a b = absurd (ground arith)
text_lt_total (c ∷ s) [] a b = refl
text_lt_total (c ∷ s) (d ∷ t) a b = ground (arith, a, b, text_lt_total s t)

unfoldable pub IsAbove : List ℕ → List ℕ × List ℕ → Type 0
IsAbove k entry = text_lt k entry.0 ≡ true

-- Each key is less than all that come after it.
unfoldable pub IsOrdered : TextMap → Type 0
IsOrdered [] = Unit
IsOrdered ((k, v) ∷ m) = All (IsAbove k) m × IsOrdered m

put_text-All :
    (j k v : List ℕ) (m : TextMap)
    → All (IsAbove j) m
    → text_lt j k ≡ true
    → All (IsAbove j) (put_text k v m)
unfolding put_text IsAbove
put_text-All j k v [] h lt = (lt, tt)
put_text-All j k v ((i, w) ∷ m) h lt = elim (Bool-cases (text_eq i k)) [
  | inl same ↦ rw same (lt, h.1)
  | inr other ↦ elim (Bool-cases (text_lt k i)) [
    | inl less ↦ rw (other, less) (lt, h)
    | inr more ↦ rw (other, more) (h.0, put_text-All j k v m h.1 lt)
  ]
]

pub put_text-IsOrdered : (k v : List ℕ) (m : TextMap) → IsOrdered m → IsOrdered (put_text k v m)
unfolding put_text IsOrdered IsAbove
put_text-IsOrdered k v [] h = (tt, tt)
put_text-IsOrdered k v ((i, w) ∷ m) h = elim (Bool-cases (text_eq i k)) [
  | inl same ↦ rw same (subst (λ x. All (IsAbove x) m) ((text_eq_iff i k).0 same) h.0, h.1)
  | inr other ↦ elim (Bool-cases (text_lt k i)) [
    | inl less ↦
        rw (other, less)
          ((less, All-mono m (λ entry above. text_lt_trans k i entry.0 less above) h.0), h)
    | inr more ↦
        rw (other, more)
          (put_text-All i k v m h.0 (text_lt_total k i other more), put_text-IsOrdered k v m h.1)
  ]
]

-- A key that is less than all of them is not there.
pub find_text-IsAbove : (k : List ℕ) (m : TextMap) → All (IsAbove k) m → find_text k m ≡ none
unfolding find_text IsAbove
find_text-IsAbove k [] h = refl
find_text-IsAbove k ((j, v) ∷ m) h = elim (Bool-cases (text_eq j k)) [
  | inl same ↦ absurd (
      ground (
        arith,
        same,
        text_lt_self k,
        subst (λ x. text_lt k x ≡ true) ((text_eq_iff j k).0 same) h.0,
      ))
  | inr other ↦ rw other (find_text-IsAbove k m h.1)
]

scan_device-IsOrdered :
    (run : List ℕ → Run) (rule serial state : List ℕ) (seen : Scan)
    → IsOrdered seen.now
    → IsOrdered (scan_device run rule serial state seen).now
unfolding scan_device
scan_device-IsOrdered run rule serial state seen h = elim (Bool-cases (plain_serial serial)) [
  | inr odd ↦ ground (arith, odd, h)
  | inl plain ↦ elim (Bool-cases (text_eq state (codes "device"))) [
    | inr other ↦ rw (plain, other) (put_text-IsOrdered serial state seen.now h)
    | inl device ↦ rw (plain, device) (put_text-IsOrdered serial (arm run rule serial).0 seen.now h)
  ]
]

scan_tab-IsOrdered :
    (run : List ℕ → Run) (rule serial : List ℕ) (seen : Scan) (rest : Option (List ℕ))
    → IsOrdered seen.now
    → IsOrdered (scan_tab run rule serial seen rest).now
unfolding scan_tab
scan_tab-IsOrdered run rule serial seen none h = h
scan_tab-IsOrdered run rule serial seen (some rest) h =
    scan_device-IsOrdered run rule serial (strip_while (λ c. c == 13 || c == 32) rest) seen h

pub scan_lines-IsOrdered :
    (run : ℕ → List ℕ → Run) (rule : List ℕ) (i : ℕ) (lines : List (List ℕ)) (seen : Scan)
    → IsOrdered seen.now
    → IsOrdered (scan_lines run rule i lines seen).now
unfolding scan_lines scan_line
scan_lines-IsOrdered run rule i [] seen h = h
scan_lines-IsOrdered run rule i (line ∷ lines) seen h =
    scan_lines-IsOrdered run rule (suc i) lines (scan_line (run i) rule line seen)
      (scan_tab-IsOrdered (run i) rule (before 9 line) seen (behind 9 line) h)
