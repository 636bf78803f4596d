-- ===== src/Usb/Commands.antt =====
-- host/src/usb/adb_reverse.cpp: what the host puts on adb's command line.
use immersive.Base.{
  ℕ, zero, suc, ◌+◌, ◌/◌, ◌%◌, ◌<◌, ◌≡◌, refl, inl, inr, Bool, true, ◌&&◌, ◌||◌, List, [], ◌∷◌,
  ◌++◌, Option, none, some, ltb, ◌==◌, arith, codes, behind, before, pieces, strip_while, text_eq,
  All, All-append, decimal_digits, decimal, Bool-cases,
}
use immersive.Usb.{
  Run, Adb, Tunnel, Scan, is_serial_char, are_serial_chars, plain_serial, rule_of, list_command,
  arm_command, arm, has_rule, scan_device, scan_tab, scan_line, scan_lines, keep_round,
  keep_adb_reverse,
}

-- A letter, a digit, a space, or one of `.`, `_`, `:`, `-`: nothing that a shell reads as its own.
pub IsPlainChar : ℕ → Type 0
IsPlainChar c = (is_serial_char c || c == 32) ≡ true

pub IsPlain : List ℕ → Type 0
IsPlain = All IsPlainChar

IsPlain-append : (s t : List ℕ) → IsPlain s → IsPlain t → IsPlain (s ++ t)
unfolding IsPlain
IsPlain-append s t = All-append IsPlainChar s t

-- The test of a literal.
is_plain : List ℕ → Bool
is_plain [] = true
is_plain (c ∷ s) = (is_serial_char c || c == 32) && is_plain s

is_plain-IsPlain : (s : List ℕ) → is_plain s ≡ true → IsPlain s
unfolding is_plain IsPlain IsPlainChar
is_plain-IsPlain [] h = tt
is_plain-IsPlain (c ∷ s) h = (ground (arith, h), is_plain-IsPlain s (ground (arith, h)))

decimal_digits-IsPlain : (fuel n : ℕ) → IsPlain (decimal_digits fuel n)
unfolding decimal_digits IsPlain IsPlainChar is_serial_char
decimal_digits-IsPlain zero n = tt
decimal_digits-IsPlain (suc fuel) n = elim (Bool-cases (ltb n 10)) [
  | inl one ↦ rw one (ground (arith, one), tt)
  | inr more ↦ rw more (
      IsPlain-append (decimal_digits fuel (n / 10)) ((48 + n % 10) ∷ [])
        (decimal_digits-IsPlain fuel (n / 10)) (digit (n % 10) (omega arith), tt))
]
  where
    digit : (k : ℕ) → k < 10 → (is_serial_char (48 + k) || 48 + k == 32) ≡ true
    digit k h = ground arith

rule_of-IsPlain : (port : ℕ) → IsPlain (rule_of port)
unfolding rule_of decimal is_plain is_serial_char
rule_of-IsPlain port =
    IsPlain-append (codes "tcp:") (decimal port) (is_plain-IsPlain (codes "tcp:") refl)
      (decimal_digits-IsPlain (port + 1) port)

are_serial_chars-IsPlain : (s : List ℕ) → are_serial_chars s ≡ true → IsPlain s
unfolding are_serial_chars IsPlain IsPlainChar
are_serial_chars-IsPlain [] h = tt
are_serial_chars-IsPlain (c ∷ s) h =
    (ground (arith, h), are_serial_chars-IsPlain s (ground (arith, h)))

module _ (serial rule : List ℕ) (hs : IsPlain serial) (hr : IsPlain rule) where
  list_command-IsPlain : IsPlain (list_command serial)
  unfolding list_command is_plain is_serial_char
  list_command-IsPlain =
      IsPlain-append (codes "-s ") (serial ++ codes " reverse --list")
        (is_plain-IsPlain (codes "-s ") refl)
        (IsPlain-append serial (codes " reverse --list") hs
          (is_plain-IsPlain (codes " reverse --list") refl))

  arm_command-IsPlain : IsPlain (arm_command serial rule)
  unfolding arm_command is_plain is_serial_char
  arm_command-IsPlain =
      IsPlain-append (codes "-s ") (serial ++ (codes " reverse " ++ (rule ++ (codes " " ++ rule))))
        (is_plain-IsPlain (codes "-s ") refl)
        (IsPlain-append serial (codes " reverse " ++ (rule ++ (codes " " ++ rule))) hs (
          IsPlain-append (codes " reverse ") (rule ++ (codes " " ++ rule))
            (is_plain-IsPlain (codes " reverse ") refl)
            (IsPlain-append rule (codes " " ++ rule) hr
              (IsPlain-append (codes " ") rule (is_plain-IsPlain (codes " ") refl) hr))))

  arm-IsPlain : (run : List ℕ → Run) → All IsPlain (arm run rule serial).1
  unfolding arm
  arm-IsPlain run =
      elim (Bool-cases
        ((run (list_command serial)).ok && has_rule (run (list_command serial)).out rule)) [
          | inl armed ↦ rw armed (list_command-IsPlain, tt)
          | inr bare ↦ rw bare (list_command-IsPlain, (arm_command-IsPlain, tt))
        ]

module _ (rule : List ℕ) (hr : IsPlain rule) where
  scan_device-IsPlain :
      (run : List ℕ → Run) (serial state : List ℕ) (seen : Scan)
      → All IsPlain seen.commands
      → All IsPlain (scan_device run rule serial state seen).commands
  unfolding scan_device plain_serial
  scan_device-IsPlain run serial state seen h = elim (Bool-cases (plain_serial serial)) [
    | inr odd ↦ ground (arith, odd, h)
    | inl plain ↦ elim (Bool-cases (text_eq state (codes "device"))) [
      | inr other ↦ ground (arith, other, plain, h)
      | inl device ↦
          rw (plain, device)
            (All-append IsPlain seen.commands (arm run rule serial).1 h (
              arm-IsPlain serial rule (are_serial_chars-IsPlain serial (ground (arith, plain))) hr
                run))
    ]
  ]

  scan_tab-IsPlain :
      (run : List ℕ → Run) (serial : List ℕ) (seen : Scan) (rest : Option (List ℕ))
      → All IsPlain seen.commands
      → All IsPlain (scan_tab run rule serial seen rest).commands
  unfolding scan_tab
  scan_tab-IsPlain run serial seen none h = h
  scan_tab-IsPlain run serial seen (some rest) h =
      scan_device-IsPlain run serial (strip_while (λ c. c == 13 || c == 32) rest) seen h

  scan_lines-IsPlain :
      (run : ℕ → List ℕ → Run) (i : ℕ) (lines : List (List ℕ)) (seen : Scan)
      → All IsPlain seen.commands
      → All IsPlain (scan_lines run rule i lines seen).commands
  unfolding scan_lines scan_line
  scan_lines-IsPlain run i [] seen h = h
  scan_lines-IsPlain run i (line ∷ lines) seen h =
      scan_lines-IsPlain run (suc i) lines (scan_line (run i) rule line seen)
        (scan_tab-IsPlain (run i) (before 9 line) seen (behind 9 line) h)

keep_round-IsPlain :
    (port : ℕ) (adb : Adb) (t : Tunnel) → All IsPlain (keep_round port adb t).commands
unfolding keep_round is_plain is_serial_char
keep_round-IsPlain port adb t = elim (Bool-cases adb.devices.ok) [
  | inr silent ↦ rw silent (is_plain-IsPlain (codes "devices") refl, tt)
  | inl ok ↦ rw ok (
    is_plain-IsPlain (codes "devices") refl,
    scan_lines-IsPlain (rule_of port) (rule_of-IsPlain port) adb.run 0 (pieces 10 adb.devices.out)
        (record { now = []; commands = [] }) tt,
  )
]

-- Whatever adb and the devices print, every command line that the host gives adb consists of
-- letters, digits, spaces and the characters `.`, `_`, `:`, `-`, so a shell reads no more in it than
-- words.
pub keep_adb_reverse-IsPlain :
    (port : ℕ) (adbs : List Adb) (t : Tunnel) → All IsPlain (keep_adb_reverse port adbs t).commands
unfolding keep_adb_reverse
keep_adb_reverse-IsPlain port [] t = tt
keep_adb_reverse-IsPlain port (adb ∷ adbs) t =
    All-append IsPlain (keep_round port adb t).commands
      (keep_adb_reverse port adbs (keep_round port adb t).tunnel).commands
      (keep_round-IsPlain port adb t)
      (keep_adb_reverse-IsPlain port adbs (keep_round port adb t).tunnel)
