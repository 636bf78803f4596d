-- ===== src/Ui/Http/Reads.antt =====
-- host/src/ui/panel.cpp: how often recv_request receives.
use immersive.Base.{
  ℕ, zero, suc, ◌+◌, ◌≤◌, ◌≡◌, refl, sym, Bool, true, false, ◌||◌, List, [], ◌∷◌, ◌++◌, Option,
  none, some, ltb, if◌then◌else◌, arith, length, length-append, take, take-nil, is_empty, inl, inr,
  Bool-cases,
}
use mathlib.Core.Path.{subst}
use native.Mathlib.Nat.{le_refl}
use immersive.Ui.Panel.{Request}
use immersive.Ui.Http.{
  split_head, Head, head_or, read_head, read_body, parse_head, content_length, finish_request,
  request_of, recv_request,
}

-- The same outcome, but for what is still to be received: at least the first `m` texts of it.
abbrev Agree : ℕ → Option Head → Option Head → Type 0
Agree m none none = Unit
Agree m none (some b) = ⊥
Agree m (some a) none = ⊥
Agree m (some a) (some b) =
    (a.text ≡ b.text) × (a.behind ≡ b.behind) × ((k : ℕ) × (m ≤ k) × (a.chunks ≡ take k b.chunks))

Agree-none : (m : ℕ) (b : Option Head) → b ≡ none → Agree m none b
Agree-none m none e = tt
Agree-none m (some b) e = absurd (ground arith)

Agree-head_or :
    (m k : ℕ) (found : Option (List ℕ × List ℕ)) (xs ys : List (List ℕ)) (a b : Option Head)
    → m ≤ k
    → xs ≡ take k ys
    → Agree m a b
    → Agree m (head_or found xs a) (head_or found ys b)
unfolding head_or
Agree-head_or m k none xs ys a b le e h = h
Agree-head_or m k (some (text, rest)) xs ys a b le e h = (refl, refl, (k, le, e))

Agree-if :
    (m : ℕ) (stop : Bool) (a b : Option Head)
    → Agree m a b
    → Agree m (if stop then none else a) (if stop then none else b)
Agree-if m true a b h = tt
Agree-if m false a b h = h

Agree-stop :
    (m : ℕ) (stop : Bool) (a b : Option Head)
    → stop ≡ true
    → Agree m (if stop then none else a) (if stop then none else b)
Agree-stop m true a b h = tt
Agree-stop m false a b h = absurd (ground arith)

received :
    (n m : ℕ) (buf chunk : List ℕ) (chunks : List (List ℕ))
    → 16385 ≤ length buf + suc n
    → (16385 ≤ length (buf ++ chunk) + n
        → Agree m
            (read_head (buf ++ chunk) (take (n + m) chunks))
            (read_head (buf ++ chunk) chunks))
    → Agree m
        (if ltb 16384 (length buf) || is_empty chunk
          then none
          else read_head (buf ++ chunk) (take (n + m) chunks))
        (if ltb 16384 (length buf) || is_empty chunk then none else read_head (buf ++ chunk) chunks)
unfolding is_empty
received n m buf [] chunks h later =
    Agree-stop m (ltb 16384 (length buf) || true) _ _ (ground arith)
received n m buf (c ∷ s) chunks h later =
    Agree-if m (ltb 16384 (length buf) || false) _ _
      (later (omega (arith, length-append buf (c ∷ s))))

read_head-take :
    (n m : ℕ) (buf : List ℕ) (chunks : List (List ℕ))
    → 16385 ≤ length buf + n
    → Agree m (read_head buf (take (n + m) chunks)) (read_head buf chunks)
unfolding read_head
read_head-take n m buf [] h =
    subst (λ xs. Agree m (read_head buf xs) (read_head buf [])) (sym (take-nil (n + m)))
      (Agree-head_or m m (split_head buf) [] [] none none (le_refl m) (sym (take-nil m)) tt)
read_head-take zero zero buf (chunk ∷ chunks) h =
    let stop = ltb 16384 (length buf) || is_empty chunk in
    let rest = if stop then none else read_head (buf ++ chunk) chunks in
    Agree-head_or 0 0 (split_head buf) [] (chunk ∷ chunks) none rest (le_refl 0) refl
      (Agree-none 0 rest (ground (arith, h)))
read_head-take zero (suc m) buf (chunk ∷ chunks) h =
    let stop = ltb 16384 (length buf) || is_empty chunk in
    let e : 0 + suc m ≡ suc m = omega arith in
    rw e (
      Agree-head_or (suc m) (suc m) (split_head buf) (chunk ∷ take m chunks) (chunk ∷ chunks) _ _
        (le_refl (suc m)) refl
        (Agree-stop (suc m) stop (read_head (buf ++ chunk) (take m chunks))
          (read_head (buf ++ chunk) chunks) (ground (arith, h))))
read_head-take (suc n) m buf (chunk ∷ chunks) h =
    let e : suc n + m ≡ suc (n + m) = omega arith in
    rw e (
      Agree-head_or m (suc (n + m)) (split_head buf) (chunk ∷ take (n + m) chunks) (chunk ∷ chunks)
        _ _ (omega arith) refl
        (received n m buf chunk chunks h (read_head-take n m (buf ++ chunk) chunks)))

read_body-take :
    (n len : ℕ) (body : List ℕ) (chunks : List (List ℕ))
    → len ≤ length body + n
    → read_body len body (take n chunks) ≡ read_body len body chunks
unfolding read_body is_empty
read_body-take zero len body [] h = refl
read_body-take zero len body (chunk ∷ chunks) h = ground arith
read_body-take (suc n) len body [] h = refl
read_body-take (suc n) len body ([] ∷ chunks) h = refl
read_body-take (suc n) len body ((c ∷ s) ∷ chunks) h =
    let chunk = c ∷ s in
    let longer : len ≤ length (body ++ chunk) + n = omega (arith, length-append body chunk) in
    rw (read_body-take n len (body ++ chunk) chunks longer) refl

finish_request-take :
    (req : Request) (rest : List ℕ) (chunks : List (List ℕ)) (k : ℕ)
    → 4096 ≤ k
    → finish_request req rest (take k chunks) ≡ finish_request req rest chunks
unfolding finish_request
finish_request-take req rest chunks k h = elim (Bool-cases (ltb 4096 (content_length req))) [
  | inl long ↦ rw long refl
  | inr short ↦
      rw (read_body-take k (content_length req) rest chunks (ground (arith, short, h))) refl
]

request_of-Agree : (a b : Option Head) → Agree 4096 a b → request_of a ≡ request_of b
unfolding request_of
request_of-Agree none none h = refl
request_of-Agree none (some b) h = absurd h
request_of-Agree (some a) none h = absurd h
request_of-Agree (some a) (some b) (same_text, same_rest, (k, le, same_chunks)) =
    rw (same_text, same_rest, same_chunks)
      (finish_request-take (parse_head b.text) b.behind b.chunks k le)

-- Whatever a client sends and however slowly, recv_request is through with it after 20481 calls of
-- recv() at most, 16385 for the head and 4096 for the body: what would come after them changes
-- nothing.
pub recv_request-take :
    (chunks : List (List ℕ)) → recv_request (take 20481 chunks) ≡ recv_request chunks
unfolding recv_request
recv_request-take chunks = request_of-Agree _ _ (read_head-take 16385 4096 [] chunks (omega arith))
