-- ===== src/Tests/Panel.antt =====
-- The theorems on the settings panel at concrete inputs.
use immersive.Base.{
  ℕ, ◌≡◌, ◌≢◌, ◌⊎◌, refl, true, false, List, [], ◌∷◌, ◌++◌, some, none, inr, decimal, arith, take,
  codes, text_eq, starts_with, before, behind, pieces, skip_while, strtoul, is_empty,
}
use immersive.Ui.Conf.{
  Settings, read_lines, load_host_conf, Disk, Line, save_host_conf_key, head_lines,
}
use immersive.Ui.Conf.Keys.{pin-Saves}
use immersive.Ui.Conf.Edited.{IsEdited, IsTail, BeginsMarked, read_lines-save_host_conf_key}
use immersive.Ui.Conf.Valid.{IsValid}
use immersive.Ui.Form.{find_text, text_at, insert_text, parse_form}
use immersive.Ui.Actions.{Options, State, Answers, set_autostart, remove_virtual}
use immersive.Ui.Panel.{Request, handle, serve, serve_action}
use immersive.Ui.Panel.Guard.{IsForUs, IsLoggedIn, IsTrusted, handle-IsTrusted, handle-IsLoggedIn}
use immersive.Ui.Panel.Errors.{handle-refused}
use immersive.Ui.Panel.Persist.{IsSaved, serve-IsSaved}
use immersive.Ui.Panel.Valid.{serve-load_host_conf-IsValid}
use immersive.Ui.Http.{
  split_head, word_at, lower, chop_return, insert_header, insert_headers, read_target, parse_head,
  content_length, recv_request,
}
use immersive.Ui.Http.Chunks.{recv_request-eq}
use immersive.Ui.Http.Reads.{recv_request-take}

abbrev factory : Settings
factory = record {
  pin_enabled = true;
  pin = 0;
  view_only = false;
  codec = 2;
  jpeg_quality = 35;
  audio = true;
  usb = true;
}

abbrev panel : Options
panel = record {
  port = 19803;
  token = codes "0a1b";
  audio_available = true;
  virtual_supported = false;
  screen_off_supported = true;
}

abbrev conf_text : List ℕ
conf_text = codes "codec = av1\nview_only = on\n"

abbrev opened : State
opened = record { settings = load_host_conf conf_text factory; conf = conf_text; pin_file = [] }

abbrev answers : Answers
answers = record {
  random_pin = 123456;
  disk = record { written = true; renamed = true };
  pin_failure = none;
  autostart_set = true;
  remove_virtual = λ id. false;
  input_denied = false;
  clients = 1 ∷ [];
}

abbrev unplug : Request
unplug = record {
  method = codes "POST";
  path = codes "/api/set";
  query = [];
  body = codes "key=usb&value=off";
  headers =
      (codes "host", codes "127.0.0.1:19803")
      ∷ (codes "origin", codes "http://127.0.0.1:19803")
      ∷ (codes "x-im2-panel", codes "1")
      ∷ (codes "cookie", codes "im2panel_19803=0a1b")
      ∷ [];
}

handle-IsTrusted_example :
    (IsTrusted panel answers opened unplug
      × (handle panel answers opened unplug ≡ serve_action panel answers opened unplug))
    ⊎ (((IsTrusted panel answers opened unplug → ⊥) ⊎ (unplug.path ≡ codes "/"))
        × ((handle panel answers opened unplug).state ≡ opened)
        × ((handle panel answers opened unplug).calls ≡ []))
handle-IsTrusted_example = handle-IsTrusted panel answers opened unplug

handle-IsLoggedIn_example :
    ((handle panel answers opened unplug).response.status ≡ 403)
    ⊎ ((handle panel answers opened unplug).response.status ≡ 405)
    ⊎ (IsForUs panel unplug
        × (IsLoggedIn panel unplug
            ⊎ (find_text (codes "token") (parse_form unplug.query) ≡ some panel.token)))
handle-IsLoggedIn_example = handle-IsLoggedIn panel answers opened unplug

-- A virtual screen that is not there.
abbrev remove_missing : Request
remove_missing = record unplug { path = codes "/api/remove-virtual"; body = codes "id=241" }

handle-refused_example :
    ((handle panel answers opened remove_missing).response.status ≢ 400)
    ⊎ (((handle panel answers opened remove_missing).state ≡ opened)
        × (((handle panel answers opened remove_missing).calls ≡ [])
            ⊎ (((handle panel answers opened remove_missing).calls ≡ set_autostart true ∷ [])
                × (answers.autostart_set ≡ false))
            ⊎ (((handle panel answers opened remove_missing).calls ≡ set_autostart false ∷ [])
                × (answers.autostart_set ≡ false))
            ⊎ ((id : ℕ) × ((handle panel answers opened remove_missing).calls
                  ≡ remove_virtual id ∷ [])
                × (answers.remove_virtual id ≡ false))))
handle-refused_example = handle-refused panel answers opened remove_missing

-- The PIN is made anew, and then the panel is used on.
abbrev renew : Request
renew = record unplug { path = codes "/api/new-pin"; body = [] }

abbrev paired_host : State
paired_host = record {
  settings = record (load_host_conf conf_text factory) { pin = 654321 };
  conf = conf_text;
  pin_file = decimal 654321 ++ 10 ∷ [];
}

serve-IsSaved_example :
    IsSaved factory (serve panel paired_host ((answers, renew) ∷ (answers, unplug) ∷ []))
serve-IsSaved_example =
    serve-IsSaved factory panel paired_host ((answers, renew) ∷ (answers, unplug) ∷ [])
      ((refl, refl, refl), ((refl, refl, refl), tt)) (refl, inr refl)

serve-load_host_conf-IsValid_example :
    IsValid (serve panel opened ((answers, unplug) ∷ [])).settings
serve-load_host_conf-IsValid_example =
    serve-load_host_conf-IsValid panel factory opened ((answers, unplug) ∷ []) refl
      (record {
        codec_known = omega arith;
        quality_low = omega arith;
        quality_high = omega arith;
        pin_digits = omega arith;
      })
      ((omega arith, omega arith), tt)

abbrev working : Disk
working = record { written = true; renamed = true }

abbrev pin_saved : List ℕ
pin_saved = (save_host_conf_key working conf_text (codes "pin") (codes "on")).0

read_lines-save_host_conf_key_example :
    (head body tail : List Line) × (read_lines pin_saved ≡ head ++ (body ++ tail))
    × IsEdited (codes "pin") (codes "on") (read_lines conf_text) body
    × IsTail (codes "pin") (codes "on") (read_lines conf_text) tail
    × (((head ≡ []) × BeginsMarked (body ++ tail))
        ⊎ ((head ≡ head_lines) × (BeginsMarked (body ++ tail) → ⊥)))
read_lines-save_host_conf_key_example =
    read_lines-save_host_conf_key working conf_text (codes "pin") (codes "on") refl refl
      (pin-Saves true).line

abbrev head_text : List ℕ
head_text = codes "POST /api/new-pin HTTP/1.1\r\nContent-Length: 2"

abbrev parts : List (List ℕ)
parts =
    codes "POST /api/new-pin HTTP/1.1\r\nContent-Le"
    ∷ codes "ngth: 2\r\n\r"
    ∷ codes "\na="
    ∷ codes "more"
    ∷ []

recv_request-eq_example :
    recv_request parts
    ≡ some (record (parse_head head_text) {
      body = take (content_length (parse_head head_text)) (codes "a=more");
    })
unfolding split_head word_at lower chop_return insert_header insert_headers read_target parse_head
    content_length text_at find_text insert_text text_eq starts_with before behind pieces skip_while
    strtoul is_empty
recv_request-eq_example =
    recv_request-eq parts head_text (codes "a=more") (refl, (refl, (refl, (refl, tt))))
      (omega arith) refl (omega arith) (omega arith)

recv_request-take_example : recv_request (take 20481 parts) ≡ recv_request parts
recv_request-take_example = recv_request-take parts
