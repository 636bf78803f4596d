-- ===== src/Tests/Usb.antt =====
-- The USB tunnel on concrete inputs.
use immersive.Base.{
  ◌≡◌, refl, true, false, ◌++◌, [], ◌∷◌, codes, before, behind, pieces, strip_while, words, decimal,
  text_eq, text_lt, is_empty, All,
}
use immersive.Ui.Form.{find_text}
use immersive.Usb.{
  Adb, first_line, is_serial_char, are_serial_chars, plain_serial, last_but_one, any_rule, has_rule,
  rule_of, list_command, arm_command, arm, put_text, scan_device, scan_tab, scan_line, scan_lines,
  is_passing, is_known, changed, missing, unplugged, keep_round, keep_adb_reverse,
}
use immersive.Usb.Commands.{IsPlain, keep_adb_reverse-IsPlain}
use immersive.Usb.Told.{told, shown, state_of}
use immersive.Usb.Notices.{no_headsets, told-keep_adb_reverse}

-- One headset is ready after its rule is made, a second one has not allowed debugging.
abbrev plugged : Adb
plugged = record {
  devices = record {
    ok = true;
    out =
        codes "List of devices attached"
        ++ (10 ∷ codes "1WMH"
            ++ (9 ∷ codes "device"
                ++ (10 ∷ codes "2; rm" ++ (9 ∷ codes "unauthorized" ++ 10 ∷ []))));
  };
  run = λ i args. record { ok = true; out = [] };
}

abbrev unplugged_again : Adb
unplugged_again = record {
  devices = record { ok = true; out = [] };
  run = λ i args. record { ok = false; out = [] };
}

keep_adb_reverse-IsPlain_example :
    All IsPlain (keep_adb_reverse 19800 (plugged ∷ unplugged_again ∷ []) no_headsets).commands
keep_adb_reverse-IsPlain_example =
    keep_adb_reverse-IsPlain 19800 (plugged ∷ unplugged_again ∷ []) no_headsets

plugged_state :
    state_of (codes "1WMH") (keep_adb_reverse 19800 (plugged ∷ []) no_headsets).tunnel.last
    ≡ codes "ready"
unfolding shown state_of find_text before behind pieces strip_while words decimal text_eq text_lt
    is_empty first_line is_serial_char are_serial_chars plain_serial last_but_one any_rule has_rule
    rule_of list_command arm_command arm put_text scan_device scan_tab scan_line scan_lines
    is_passing is_known changed missing unplugged keep_round keep_adb_reverse
plugged_state = refl

told-keep_adb_reverse_example :
    told (codes "gone") (codes "1WMH") (keep_adb_reverse 19800 (plugged ∷ []) no_headsets).notices
    ≡ state_of (codes "1WMH") (keep_adb_reverse 19800 (plugged ∷ []) no_headsets).tunnel.last
unfolding shown state_of find_text before behind pieces strip_while words decimal text_eq text_lt
    is_empty first_line is_serial_char are_serial_chars plain_serial last_but_one any_rule has_rule
    rule_of list_command arm_command arm put_text scan_device scan_tab scan_line scan_lines
    is_passing is_known changed missing unplugged keep_round keep_adb_reverse
told-keep_adb_reverse_example = told-keep_adb_reverse 19800 (plugged ∷ []) (codes "1WMH") refl
