-- ===== src/Ui/Panel/Guard.antt =====
-- host/src/ui/panel.cpp: which requests the panel serves.
use immersive.Base.{
  ℕ, ◌≡◌, ◌↔◌, ◌⊎◌, inl, inr, true, List, [], ◌++◌, some, arith, Option-cases, codes, text_eq_iff,
  decimal,
}
use immersive.Ui.Form.{find_text, text_at, parse_form}
use immersive.Ui.Form.Secret.{same_secret_iff}
use immersive.Ui.Actions.{Options, Answers, State}
use immersive.Ui.Panel.{
  Request, Answer, origin, local_origin, is_host, is_origin, replied, forbidden, log_in, serve_page,
  serve_action, serve_checked, handle,
}
use immersive.Ui.Panel.Cookies.{HoldsKey, authorized_iff}

-- The request names the panel as its host.
abbrev pub IsForUs : Options → Request → Type 0
IsForUs o req =
    (text_at (codes "host") req.headers ≡ codes "127.0.0.1:" ++ decimal o.port)
    ⊎ (text_at (codes "host") req.headers ≡ codes "localhost:" ++ decimal o.port)

-- It holds the cookie of this run.
abbrev pub IsLoggedIn : Options → Request → Type 0
IsLoggedIn o req = HoldsKey o (text_at (codes "cookie") req.headers)

-- A POST of the panel's own page.
abbrev pub IsFromUs : Options → Request → Type 0
IsFromUs o req =
    (req.method ≡ codes "POST")
    × ((text_at (codes "origin") req.headers ≡ origin o)
        ⊎ (text_at (codes "origin") req.headers ≡ local_origin o))
    × (text_at (codes "x-im2-panel") req.headers ≡ codes "1")

is_host_iff :
    (o : Options) (req : Request)
    → (is_host o (text_at (codes "host") req.headers) ≡ true) ↔ IsForUs o req
unfolding is_host
is_host_iff o req = ground (
  arith,
  text_eq_iff (text_at (codes "host") req.headers) (codes "127.0.0.1:" ++ decimal o.port),
  text_eq_iff (text_at (codes "host") req.headers) (codes "localhost:" ++ decimal o.port),
)

module _ (o : Options) (ans : Answers) (st : State) (req : Request) where
  abbrev IsUnchanged : Answer → Type 0
  IsUnchanged a = (a.state ≡ st) × (a.calls ≡ [])

  serve_page-IsUnchanged : (path : List ℕ) → IsUnchanged (serve_page st path)
  unfolding serve_page replied
  serve_page-IsUnchanged path = ground arith

  -- Everything that a request needs to be an action of the user in the panel.
  abbrev pub IsTrusted : Type 0
  IsTrusted = IsForUs o req × IsFromUs o req × IsLoggedIn o req

  abbrev Performs : Answer → Type 0
  Performs a = a ≡ serve_action o ans st req

  serve_checked-cases :
      (IsLoggedIn o req × (req.method ≡ codes "POST") × Performs (serve_checked o ans st req))
      ⊎ (((req.method ≡ codes "POST" → IsLoggedIn o req → ⊥) ⊎ (req.path ≡ codes "/"))
          × IsUnchanged (serve_checked o ans st req))
  unfolding serve_checked replied log_in
  serve_checked-cases = ground (
    arith,
    authorized_iff o (text_at (codes "cookie") req.headers),
    text_eq_iff req.method (codes "POST"),
    text_eq_iff req.path (codes "/"),
    serve_page-IsUnchanged req.path,
  )

  -- A request changes settings or files, or calls anything outside the panel, only as an action of
  -- the user in the panel: a POST that names the panel as its host and its origin, has the header
  -- that a form of another site cannot send, and holds the cookie of this run. All such requests
  -- but those for the page itself are performed; all others leave the panel as it was.
  pub handle-IsTrusted :
      (IsTrusted × (handle o ans st req ≡ serve_action o ans st req))
      ⊎ (((IsTrusted → ⊥) ⊎ (req.path ≡ codes "/"))
          × ((handle o ans st req).state ≡ st)
          × ((handle o ans st req).calls ≡ []))
  unfolding handle forbidden replied is_origin
  handle-IsTrusted = ground (
    arith,
    serve_checked-cases,
    is_host_iff o req,
    text_eq_iff req.method (codes "POST"),
    text_eq_iff (text_at (codes "origin") req.headers) (origin o),
    text_eq_iff (text_at (codes "origin") req.headers) (local_origin o),
    text_eq_iff (text_at (codes "x-im2-panel") req.headers) (codes "1"),
  )

  serve_checked-cookie :
      ((serve_checked o ans st req).response.status ≡ 403)
      ⊎ IsLoggedIn o req
      ⊎ (find_text (codes "token") (parse_form req.query) ≡ some o.token)
  unfolding serve_checked replied
  serve_checked-cookie = elim (Option-cases (find_text (codes "token") (parse_form req.query))) [
    | inl missing ↦ ground (arith, missing, authorized_iff o (text_at (codes "cookie") req.headers))
    | inr (secret, found) ↦ ground (
      arith,
      found,
      same_secret_iff secret o.token,
      authorized_iff o (text_at (codes "cookie") req.headers),
    )
  ]

  -- Whatever is answered but a refusal (403 or 405), the page, the settings and the cookie itself,
  -- goes only to a request that names the panel as its host and brought this run's token, in
  -- its cookie or in the link that sets it.
  pub handle-IsLoggedIn :
      ((handle o ans st req).response.status ≡ 403)
      ⊎ ((handle o ans st req).response.status ≡ 405)
      ⊎ (IsForUs o req
          × (IsLoggedIn o req ⊎ (find_text (codes "token") (parse_form req.query) ≡ some o.token)))
  unfolding handle forbidden replied
  handle-IsLoggedIn = ground (arith, serve_checked-cookie, is_host_iff o req)
