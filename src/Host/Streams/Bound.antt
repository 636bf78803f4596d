-- ===== src/Host/Streams/Bound.antt =====
-- host/src/main.cpp: however requests follow one another, at most three monitors stream, each once,
-- and only their owner can drive the PC.
use immersive.Base.{
  ℕ, ◌≡◌, ◌≤◌, ◌<◌, refl, ap, Bool, true, false, not, ◌&&◌, List, [], ◌∷◌, arith, ◌==◌,
  if◌then◌else◌, length, contains, contains-remove, remove,
}
use immersive.Protocol.Messages.{StreamConfig}
use immersive.Host.Streams.{
  ActiveStream, Streams, is_streaming, insert_stream, ids_of, keep_selected, fresh_stream,
  start_selected,
}
use immersive.Host.Streams.Selection.{contains-ids_of}

-- No number twice.
unfoldable pub distinct : List ℕ → Bool
distinct [] = true
distinct (x ∷ xs) = not (contains xs x) && distinct xs

length-remove : (x : ℕ) (ys : List ℕ) → length (remove x ys) ≤ length ys
length-remove x [] = omega arith
length-remove x (y ∷ ys) = ground (arith, length-remove x ys)

length-remove-lt : (x : ℕ) (ys : List ℕ) → contains ys x ≡ true → length (remove x ys) < length ys
length-remove-lt x [] h = absurd (ground arith)
length-remove-lt x (y ∷ ys) h = ground (arith, length-remove-lt x ys, length-remove x ys)

-- Distinct numbers that all occur in a list are no more than it has.
pub length-distinct :
    (xs ys : List ℕ)
    → distinct xs ≡ true
    → ((m : ℕ) → contains xs m ≡ true → contains ys m ≡ true)
    → length xs ≤ length ys
unfolding distinct
length-distinct [] ys d h = omega arith
length-distinct (x ∷ xs) ys d h =
    let there : contains ys x ≡ true = h x (ground arith) in
    let apart : contains xs x ≡ false = ground arith in
    let one_id = λ (m : ℕ) (e : x ≡ m). ap (contains xs) e in
    let others : (m : ℕ) → contains xs m ≡ true → contains (remove x ys) m ≡ true =
      λ m e. ground (arith, h m, one_id m, contains-remove x m ys) in
    let rest = length-distinct xs (remove x ys) (ground arith) others in
    omega (arith, rest, length-remove-lt x ys there)

contains-insert_stream :
    (id m : ℕ) (s : ActiveStream) (streams : Streams)
    → contains (ids_of (insert_stream id s streams)) m
      ≡ (if id == m then true else contains (ids_of streams) m)
unfolding insert_stream ids_of
contains-insert_stream id m s [] = ground arith
contains-insert_stream id m s ((j, u) ∷ streams) =
    ground (arith, contains-insert_stream id m s streams)

distinct-insert_stream :
    (id : ℕ) (s : ActiveStream) (streams : Streams)
    → contains (ids_of streams) id ≡ false
    → distinct (ids_of streams) ≡ true
    → distinct (ids_of (insert_stream id s streams)) ≡ true
unfolding insert_stream ids_of distinct
distinct-insert_stream id s [] apart d = ground arith
distinct-insert_stream id s ((j, u) ∷ streams) apart d =
    ground (arith, distinct-insert_stream id s streams, contains-insert_stream id j s streams)

contains-keep_selected :
    (same : Bool) (ids : List ℕ) (streams : Streams) (m : ℕ)
    → contains (ids_of streams) m ≡ false
    → contains (ids_of (keep_selected same ids streams).0) m ≡ false
unfolding keep_selected ids_of
contains-keep_selected same ids [] m h = refl
contains-keep_selected same ids ((id, s) ∷ streams) m h =
    ground (arith, contains-keep_selected same ids streams m)

pub distinct-keep_selected :
    (same : Bool) (ids : List ℕ) (streams : Streams)
    → distinct (ids_of streams) ≡ true
    → distinct (ids_of (keep_selected same ids streams).0) ≡ true
unfolding keep_selected ids_of distinct
distinct-keep_selected same ids [] d = refl
distinct-keep_selected same ids ((id, s) ∷ streams) d =
    ground
      (arith, distinct-keep_selected same ids streams, contains-keep_selected same ids streams id)

pub distinct-start_selected :
    (client_id : ℕ) (displays : List ℕ) (cfg : StreamConfig) (ids : List ℕ) (streams : Streams)
    → distinct (ids_of streams) ≡ true
    → distinct (ids_of (start_selected client_id displays cfg ids streams).0) ≡ true
unfolding start_selected
distinct-start_selected client_id displays cfg [] streams d = d
distinct-start_selected client_id displays cfg (id ∷ ids) streams d =
    let new = insert_stream id (fresh_stream cfg) streams in
    let starts : Bool = not (is_streaming id streams) && contains displays id in
    let streams' = if starts then new else streams in
    distinct-start_selected client_id displays cfg ids streams' (
      ground
        (arith, contains-ids_of streams id, distinct-insert_stream id (fresh_stream cfg) streams))
