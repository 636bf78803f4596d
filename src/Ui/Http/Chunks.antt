-- ===== src/Ui/Http/Chunks.antt =====
-- host/src/ui/panel.cpp: a request is read the same however the network cuts it.
use immersive.Base.{
  ℕ, zero, suc, ◌≤◌, ◌≡◌, refl, ap, sym, ◌∙◌, inl, inr, true, false, ◌||◌, List, [], ◌∷◌, ◌++◌,
  some, append_assoc, append-nil, ltb, arith, length, length-append, take, drop, concat, All,
  is_empty, starts_with, Bool-cases, Option-cases,
}
use mathlib.Core.Path.{subst}
use immersive.Ui.Http.{
  head_end, split_head, Head, head_or, read_head, read_body, parse_head, content_length,
  finish_request, request_of, recv_request,
}

starts_with-append : (p s t : List ℕ) → starts_with p s ≡ true → starts_with p (s ++ t) ≡ true
unfolding starts_with
starts_with-append [] s t h = refl
starts_with-append (c ∷ p) [] t h = absurd (ground arith)
starts_with-append (c ∷ p) (d ∷ s) t h = ground (arith, h, starts_with-append p s t)

-- The test looks no further than its own length.
starts_with-long : (p s t : List ℕ) → length p ≤ length s → starts_with p (s ++ t) ≡ starts_with p s
unfolding starts_with
starts_with-long [] s t h = refl
starts_with-long (c ∷ p) [] t h = absurd (omega arith)
starts_with-long (c ∷ p) (d ∷ s) t h = ground (arith, starts_with-long p s t (omega arith))

length-starts_with : (p s : List ℕ) → starts_with p s ≡ true → length p ≤ length s
unfolding starts_with
length-starts_with [] s h = omega arith
length-starts_with (c ∷ p) [] h = absurd (ground arith)
length-starts_with (c ∷ p) (d ∷ s) h = ground (arith, h, length-starts_with p s)

drop-append : (n : ℕ) (s t : List ℕ) → n ≤ length s → drop n (s ++ t) ≡ drop n s ++ t
drop-append zero s t h = refl
drop-append (suc n) [] t h = absurd (omega arith)
drop-append (suc n) (c ∷ s) t h = drop-append n s t (omega arith)

take-append : (n : ℕ) (s t : List ℕ) → n ≤ length s → take n (s ++ t) ≡ take n s
take-append zero s t h = refl
take-append (suc n) [] t h = absurd (omega arith)
take-append (suc n) (c ∷ s) t h = ap (◌∷◌ c) (take-append n s t (omega arith))

length-split_head : (s : List ℕ) (p : List ℕ × List ℕ) → split_head s ≡ some p → 4 ≤ length s
unfolding split_head
length-split_head [] p e = absurd (ground arith)
length-split_head (c ∷ s) p e = elim (Bool-cases (starts_with head_end (c ∷ s))) [
  | inl here ↦ length-starts_with head_end (c ∷ s) here
  | inr later ↦ elim (Option-cases (split_head s)) [
    | inl missing ↦ absurd (ground (arith, later, missing, e))
    | inr (q, found) ↦ omega (arith, length-split_head s q found)
  ]
]

-- A head that is there stays as it is when more comes.
split_head-append :
    (s t h r : List ℕ) → split_head s ≡ some (h, r) → split_head (s ++ t) ≡ some (h, r ++ t)
unfolding split_head
split_head-append [] t h r e = absurd (ground arith)
split_head-append (c ∷ s) t h r e = elim (Bool-cases (starts_with head_end (c ∷ s))) [
  | inl here ↦ ground (
    arith,
    here,
    e,
    starts_with-append head_end (c ∷ s) t here,
    drop-append 4 (c ∷ s) t (length-starts_with head_end (c ∷ s) here),
  )
  | inr later ↦ elim (Option-cases (split_head s)) [
    | inl missing ↦ absurd (ground (arith, later, missing, e))
    | inr ((h', r'), found) ↦
        let same =
          starts_with-long head_end (c ∷ s) t (omega (arith, length-split_head s (h', r') found)) in
        ground (arith, later, found, e, same, split_head-append s t h' r' found)
  ]
]

-- No recv() but the last returns without bytes.
abbrev pub AreReceived : List (List ℕ) → Type 0
AreReceived = All (λ chunk. is_empty chunk ≡ false)

-- The head was found, and what was received behind it and what is still to come are the rest.
record IsHead (head : Head) (h r : List ℕ) : Type 0 where
  text : head.text ≡ h
  rest : head.behind ++ concat head.chunks ≡ r
  received : AreReceived head.chunks

read_head-eq :
    (buf : List ℕ) (chunks : List (List ℕ)) (h r : List ℕ)
    → AreReceived chunks
    → length (buf ++ concat chunks) ≤ 16384
    → split_head (buf ++ concat chunks) ≡ some (h, r)
    → (head : Head) × (read_head buf chunks ≡ some head) × IsHead head h r
unfolding read_head head_or
read_head-eq buf [] h r received fits e =
    let e' = sym (ap split_head (append-nil buf)) ∙ e in
    (
      record { text = h; behind = r; chunks = [] },
      rw e' refl,
      record { text = refl; rest = append-nil r; received = tt },
    )
read_head-eq buf (chunk ∷ chunks) h r received fits e = elim (Option-cases (split_head buf)) [
  | inl missing ↦
      let regroup = append_assoc buf chunk (concat chunks) in
      let (head, read, is_head) =
        read_head-eq (buf ++ chunk) chunks h r received.1 (rw regroup fits) (rw regroup e) in
      let shorter : length buf ≤ 16384 =
        omega (arith, fits, length-append buf (chunk ++ concat chunks)) in
      let goes_on : (ltb 16384 (length buf) || is_empty chunk) ≡ false =
        ground (arith, shorter, received.0) in
      (head, rw (missing, goes_on) read, is_head)
  | inr ((h', r'), found) ↦
      let same = sym (split_head-append buf (chunk ++ concat chunks) h' r' found) ∙ e in
      (
        record { text = h'; behind = r'; chunks = chunk ∷ chunks },
        rw found refl,
        record { text = ground (arith, same); rest = ground (arith, same); received = received },
      )
]

read_body-eq :
    (len : ℕ) (body : List ℕ) (chunks : List (List ℕ))
    → AreReceived chunks
    → len ≤ length (body ++ concat chunks)
    → read_body len body chunks ≡ some (take len (body ++ concat chunks))
unfolding read_body
read_body-eq len body [] received h =
    let enough : len ≤ length body = subst (λ b. len ≤ length b) (append-nil body) h in
    rw (append-nil body) (ground (arith, enough))
read_body-eq len body (chunk ∷ chunks) received h =
    let regroup = append_assoc body chunk (concat chunks) in
    elim (Bool-cases (ltb (length body) len)) [
      | inl more ↦
          rw (more, received.0)
            (read_body-eq len (body ++ chunk) chunks received.1 (rw regroup h)
              ∙ ap (λ b. some (take len b)) regroup)
      | inr done ↦
          rw done
            (ap some (sym (take-append len body (chunk ++ concat chunks) (ground (arith, done)))))
    ]

-- A request of up to 16384 bytes that is whole, its head `h` and then at least the body's length of
-- up to 4096 bytes, is read the same however the network cuts it into what each recv() returns:
-- its head is parsed, and its body is what stands behind the head, in that length.
pub recv_request-eq :
    (chunks : List (List ℕ)) (h r : List ℕ)
    → AreReceived chunks
    → length (concat chunks) ≤ 16384
    → split_head (concat chunks) ≡ some (h, r)
    → content_length (parse_head h) ≤ 4096
    → content_length (parse_head h) ≤ length r
    → recv_request chunks
      ≡ some (record (parse_head h) { body = take (content_length (parse_head h)) r })
unfolding recv_request request_of finish_request
recv_request-eq chunks h r received fits whole small enough =
    let (head, read, is_head) = read_head-eq [] chunks h r received fits whole in
    let same_text = is_head.text in
    let len = content_length (parse_head h) in
    let body = read_body-eq len head.behind head.chunks is_head.received (rw is_head.rest enough) in
    let fits_limit : ltb 4096 len ≡ false = ground (arith, small) in
    rw read (rw same_text (rw fits_limit (rw body (rw is_head.rest refl))))
