-- ===== src/Ui/Http.antt =====
-- host/src/ui/panel.cpp: the reading of an HTTP request from a socket. What the calls of recv()
-- deliver in turn is a list of texts; an empty one, or the end of the list, is a recv() that
-- returns no bytes.
pub mod Chunks
pub mod Reads
use mathlib.Core.Option
use immersive.Base.{
  ℕ, zero, suc, ◌+◌, ◌≡◌, refl, Bool, true, false, ◌&&◌, ◌||◌, List, [], ◌∷◌, ◌++◌, Option, none,
  some, ltb, leb, ◌==◌, if◌then◌else◌, length, take, drop, concat, map, codes, text_eq, is_empty,
  before, behind, pieces, words, skip_while, starts_with, strtoul,
}
use immersive.Ui.Form.{TextMap, insert_text, text_at}
use immersive.Ui.Panel.{Request}

-- Two line ends end the head.
abbrev pub head_end : List ℕ
head_end = 13 ∷ 10 ∷ 13 ∷ 10 ∷ []

-- The head, and what stands behind its end.
unfoldable pub split_head : List ℕ → Option (List ℕ × List ℕ)
split_head [] = none
split_head (c ∷ s) =
    let later = Option.map (λ (p : List ℕ × List ℕ). (c ∷ p.0, p.1)) (split_head s) in
    if starts_with head_end (c ∷ s) then some ([], drop 4 (c ∷ s)) else later

-- The head, what was received behind it, and what recv() still delivers.
pub record Head : Type 0 where
  pub text : List ℕ
  pub behind : List ℕ
  pub chunks : List (List ℕ)

-- The head if it is there, else what receiving more gives.
pub head_or : Option (List ℕ × List ℕ) → List (List ℕ) → Option Head → Option Head
head_or none chunks more = more
head_or (some (text, rest)) chunks more =
    some (record { text = text; behind = rest; chunks = chunks })

pub read_head : List ℕ → List (List ℕ) → Option Head
read_head buf [] = head_or (split_head buf) [] none
read_head buf (chunk ∷ chunks) =
    let more = read_head (buf ++ chunk) chunks in
    head_or (split_head buf) (chunk ∷ chunks)
      (if ltb 16384 (length buf) || is_empty chunk then none else more)

-- Receives until the body has its length.
pub read_body : ℕ → List ℕ → List (List ℕ) → Option (List ℕ)
read_body len body [] = if ltb (length body) len then none else some (take len body)
read_body len body (chunk ∷ chunks) =
    let more = read_body len (body ++ chunk) chunks in
    if ltb (length body) len then (if is_empty chunk then none else more) else some (take len body)

unfoldable pub word_at : ℕ → List (List ℕ) → List ℕ
word_at i [] = []
word_at zero (w ∷ ws) = w
word_at (suc i) (w ∷ ws) = word_at i ws

abbrev lower_char : ℕ → ℕ
lower_char c = if leb 65 c && leb c 90 then c + 32 else c

unfoldable pub lower : List ℕ → List ℕ
lower s = map lower_char s

-- The carriage return at the end of a line.
unfoldable pub chop_return : List ℕ → List ℕ
chop_return [] = []
chop_return (c ∷ []) = if c == 13 then [] else c ∷ []
chop_return (c ∷ d ∷ s) = c ∷ chop_return (d ∷ s)

-- A header; a line without a colon is none.
unfoldable pub insert_header : List ℕ → TextMap → TextMap
insert_header line headers =
    let text = chop_return line in
    elim (behind b':' text) [
      | none ↦ headers
      | some value ↦
          insert_text (lower (before b':' text)) (skip_while (λ c. c == 32 || c == 9) value) headers
    ]

unfoldable pub insert_headers : List (List ℕ) → TextMap → TextMap
insert_headers [] headers = headers
insert_headers (line ∷ lines) headers = insert_headers lines (insert_header line headers)

unfoldable pub read_target : List ℕ → List (List ℕ) → Request
read_target line lines =
    let target = word_at 1 (words line) in
    record {
      method = word_at 0 (words line);
      path = before b'?' target;
      query = elim (behind b'?' target) [ none ↦ [] | some query ↦ query ];
      body = [];
      headers = insert_headers lines [];
    }

-- The request that a head tells, without its body.
unfoldable pub parse_head : List ℕ → Request
parse_head head = elim (pieces 10 head) [
  | [] ↦ read_target [] []
  | line ∷ lines ↦ read_target line lines
]

unfoldable pub content_length : Request → ℕ
content_length req = strtoul (text_at (codes "content-length") req.headers)

pub finish_request : Request → List ℕ → List (List ℕ) → Option Request
finish_request req rest chunks =
    if ltb 4096 (content_length req)
    then none
    else Option.map (λ body. record req { body = body })
        (read_body (content_length req) rest chunks)

pub request_of : Option Head → Option Request
request_of none = none
request_of (some head) = finish_request (parse_head head.text) head.behind head.chunks

pub recv_request : List (List ℕ) → Option Request
recv_request chunks = request_of (read_head [] chunks)
