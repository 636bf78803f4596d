-- ===== src/Ui/Panel.antt =====
-- host/src/ui/panel.cpp: the settings panel's answers to HTTP requests.
pub mod Cookies
pub mod Guard
pub mod Loads
pub mod Persist
pub mod Errors
pub mod Valid
use immersive.Base.{
  ℕ, ◌+◌, ◌≡◌, refl, Bool, true, false, not, ◌&&◌, ◌||◌, List, [], ◌∷◌, ◌++◌, Option, none, some,
  ltb, leb, ◌==◌, if◌then◌else◌, bit_or, u32, u8, map, codes, text_eq, is_empty, before, behind,
  pieces, skip_while, atoi, strtoul, decimal,
}
use immersive.Protocol.{
  host_flag_view_only, host_flag_virtual_displays, host_flag_screen_off, virtual_monitor_id_base,
}
use immersive.Ui.Conf.{Settings, on_off, save_host_conf_key}
use immersive.Ui.Form.{TextMap, find_text, text_at, parse_form, same_secret}
use immersive.Ui.Actions.{Options, State, Answers, Call, Outcome, act}

pub record Request : Type 0 where
  pub method : List ℕ
  pub path : List ℕ
  pub query : List ℕ
  pub body : List ℕ
  pub headers : TextMap

pub cookie_name : Options → List ℕ
cookie_name o = codes "im2panel_" ++ decimal o.port

pub origin : Options → List ℕ
origin o = codes "http://127.0.0.1:" ++ decimal o.port

pub local_origin : Options → List ℕ
local_origin o = codes "http://localhost:" ++ decimal o.port

pub is_host : Options → List ℕ → Bool
is_host o host =
    text_eq host (codes "127.0.0.1:" ++ decimal o.port)
    || text_eq host (codes "localhost:" ++ decimal o.port)

pub is_origin : Options → List ℕ → Bool
is_origin o from = text_eq from (origin o) || text_eq from (local_origin o)

-- One `name=value` of a Cookie header, its leading spaces gone.
pub is_key_cookie : Options → List ℕ → Bool
is_key_cookie o part = elim (behind b'=' part) [
  | none ↦ false
  | some value ↦ text_eq (before b'=' part) (cookie_name o) && same_secret value o.token
]

pub any_cookie : Options → List (List ℕ) → Bool
any_cookie o [] = false
any_cookie o (part ∷ parts) = is_key_cookie o (skip_while (λ c. c == 32) part) || any_cookie o parts

pub authorized : Options → List ℕ → Bool
authorized o cookies = any_cookie o (pieces b';' cookies)

-- A plain text, the page and its font (assets that the build makes), the JSON of state_json(), or
-- an error in JSON.
pub data Body : Type 0 where
  plain : List ℕ → Body
  page font state_json : Body
  failure : List ℕ → Body

pub record Response : Type 0 where
  pub status : ℕ
  pub body : Body
  pub extra : List (List ℕ)

pub record Answer : Type 0 where
  pub state : State
  pub calls : List Call
  pub response : Response

-- An answer that changes nothing.
pub replied : State → ℕ → Body → Answer
replied st status body = record {
  state = st;
  calls = [];
  response = record { status = status; body = body; extra = [] };
}

pub forbidden : State → Answer
forbidden st = replied st 403 (plain (codes "Immersive-2: cross-site request refused"))

-- The link of the tray icon: the token becomes a cookie.
pub log_in : Options → State → Answer
log_in o st = record {
  state = st;
  calls = [];
  response = record {
    status = 303;
    body = plain [];
    extra =
        (codes "Set-Cookie: "
          ++ (cookie_name o
              ++ (codes "=" ++ (o.token ++ codes "; Path=/; HttpOnly; SameSite=Strict"))))
        ∷ codes "Location: /"
        ∷ [];
  };
}

pub serve_page : State → List ℕ → Answer
serve_page st path =
    if text_eq path (codes "/")
    then replied st 200 page
    else if text_eq path (codes "/grotesk.woff2")
    then replied st 200 font
    else if text_eq path (codes "/api/state")
    then replied st 200 state_json
    else replied st 404 (plain (codes "Immersive-2: not found"))

pub serve_action : Options → Answers → State → Request → Answer
serve_action o ans st req =
    let done = act o ans st req.path (parse_form req.body) in
    record {
      state = done.state;
      calls = done.calls;
      response =
          if is_empty done.error
          then record { status = 200; body = state_json; extra = [] }
          else record { status = 400; body = failure done.error; extra = [] };
    }

-- A request that the origin checks let through.
pub serve_checked : Options → Answers → State → Request → Answer
serve_checked o ans st req =
    let token = find_text (codes "token") (parse_form req.query) in
    let inside =
      if not (authorized o (text_at (codes "cookie") req.headers))
      then replied st 403
          (plain (codes "Immersive-2: open the settings from the Immersive-2 icon on this PC."))
      else if text_eq req.method (codes "POST")
      then serve_action o ans st req
      else serve_page st req.path in
    if text_eq req.path (codes "/")
    then (elim token [
      | none ↦ inside
      | some secret ↦
          if same_secret secret o.token
          then log_in o st
          else replied st 403 (
              plain (
                codes
                  "Immersive-2: this link is from an earlier run. Open the panel from the Immersive-2 icon."))
    ])
    else inside

pub handle : Options → Answers → State → Request → Answer
handle o ans st req =
    let from = text_at (codes "origin") req.headers in
    let is_post = text_eq req.method (codes "POST") in
    if not (is_host o (text_at (codes "host") req.headers))
    then replied st 403 (plain (codes "Immersive-2: wrong Host"))
    else if not (is_empty from) && not (is_origin o from)
    then forbidden st
    else if is_post
        && (not (is_origin o from)
            || not (text_eq (text_at (codes "x-im2-panel") req.headers) (codes "1")))
    then forbidden st
    else if not (text_eq req.method (codes "GET"))
        && not (text_eq req.method (codes "HEAD"))
        && not is_post
    then replied st 405 (plain (codes "Immersive-2: method not allowed"))
    else serve_checked o ans st req

-- serve(): one request after another, with what the rest of the host answers meanwhile.
pub serve : Options → State → List (Answers × Request) → State
serve o st [] = st
serve o st ((ans, req) ∷ reqs) = serve o (handle o ans st req).state reqs
