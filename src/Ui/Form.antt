-- ===== src/Ui/Form.antt =====
-- host/src/ui/panel.cpp: forms, URL decoding and the comparison of secrets.
pub mod Secret
use immersive.Base.{
  ℕ, ◌+◌, ◌*◌, ◌-◌, ◌≡◌, refl, Bool, true, false, ◌&&◌, ◌||◌, List, [], ◌∷◌, ◌++◌, Option, none,
  some, leb, ◌==◌, if◌then◌else◌, length, bit_or, bit_xor, codes, text_eq, before, behind, pieces,
  is_digit,
}

-- std::map of two texts: the last value of a key stays.
abbrev pub TextMap : Type 0
TextMap = List (List ℕ × List ℕ)

unfoldable pub insert_text : List ℕ → List ℕ → TextMap → TextMap
unfolding text_eq
insert_text k v [] = (k, v) ∷ []
insert_text k v ((j, w) ∷ m) = if text_eq j k then (k, v) ∷ m else (j, w) ∷ insert_text k v m

unfoldable pub find_text : List ℕ → TextMap → Option (List ℕ)
unfolding text_eq
find_text k [] = none
find_text k ((j, v) ∷ m) = if text_eq j k then some v else find_text k m

-- The value of a key, or the empty text.
unfoldable pub text_at : List ℕ → TextMap → List ℕ
unfolding find_text
text_at k m = elim (find_text k m) [ none ↦ [] | some v ↦ v ]

pub is_xdigit : ℕ → Bool
is_xdigit c = is_digit c || leb 65 c && leb c 70 || leb 97 c && leb c 102

pub hex_value : ℕ → ℕ
hex_value c = if is_digit c then c - 48 else if leb c 70 then c - 55 else c - 87

pub plain_char : ℕ → ℕ
plain_char c = if c == b'+' then 32 else c

pub url_decode : List ℕ → List ℕ
unfolding is_xdigit hex_value plain_char
url_decode [] = []
url_decode (c ∷ []) = plain_char c ∷ []
url_decode (c ∷ d ∷ []) = plain_char c ∷ plain_char d ∷ []
url_decode (c ∷ d ∷ e ∷ s) =
    let plain = url_decode (d ∷ e ∷ s) in
    let coded = url_decode s in
    if c == b'%' && is_xdigit d && is_xdigit e
    then (16 * hex_value d + hex_value e) ∷ coded
    else plain_char c ∷ plain

-- One `name=value` of a form; without `=` the value is empty.
pub insert_pair : List ℕ → TextMap → TextMap
unfolding url_decode insert_text before behind
insert_pair pair m =
    insert_text (url_decode (before b'=' pair))
      (elim (behind b'=' pair) [ none ↦ [] | some value ↦ url_decode value ]) m

pub insert_pairs : List (List ℕ) → TextMap → TextMap
unfolding insert_pair
insert_pairs [] m = m
insert_pairs (pair ∷ pairs) m = insert_pairs pairs (insert_pair pair m)

pub parse_form : List ℕ → TextMap
unfolding insert_pairs pieces
parse_form s = insert_pairs (pieces b'&' s) []

-- The loop of same_secret over two texts of one length.
pub differences : ℕ → List ℕ → List ℕ → ℕ
differences diff (c ∷ s) (d ∷ t) = differences (bit_or diff (bit_xor c d)) s t
differences diff _ _ = diff

pub same_secret : List ℕ → List ℕ → Bool
unfolding differences
same_secret a b = if length a == length b then differences 0 a b == 0 else false

decodes : text_at (codes "value") (parse_form (codes "key=usb&value=%6f+n%2")) ≡ codes "o n%2"
unfolding text_at parse_form
decodes = refl
