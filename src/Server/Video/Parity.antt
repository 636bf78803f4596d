-- ===== src/Server/Video/Parity.antt =====
-- host/src/network/server.cpp: the XOR parity of send_video_packet.
use immersive.Base.{
  ℕ, zero, suc, ◌+◌, ◌%◌, ◌≤◌, ◌<◌, ◌≡◌, refl, ap, sym, ◌∙◌, List, [], ◌∷◌, bit_xor, length, arith,
  get_or, ◌==◌, if◌then◌else◌, Bool, true, false, Bool-cases, inl, inr, not, ◌&&◌,
}
use immersive.Base.Xor.{bit_xor_comm, bit_xor_assoc, bit_xor_self, bit_xor-zero}
use immersive.Server.Video.{chunk, chunk_loop, xor_into, xor_row}

-- The XOR of `f k` over the members of a group among i, ..., i + n - 1.
abbrev pub group_xor : (ℕ → ℕ) → (ℕ → Bool) → ℕ → ℕ → ℕ
group_xor f member i zero = 0
group_xor f member i (suc n) =
    let rest = group_xor f member (i + 1) n in if member i then bit_xor (f i) rest else rest

bit_xor_cancel : (a b c : ℕ) → bit_xor (bit_xor a b) (bit_xor a c) ≡ bit_xor b c
bit_xor_cancel a b c = cc (
  bit_xor_comm a b,
  bit_xor_assoc b a (bit_xor a c),
  bit_xor_assoc a a c,
  bit_xor_self a,
  bit_xor_comm 0 c,
  bit_xor-zero c,
)

bit_xor_undo : (a b : ℕ) → bit_xor (bit_xor a b) b ≡ a
bit_xor_undo a b = cc (bit_xor_assoc a b b, bit_xor_self b, bit_xor-zero a)

-- Leaving out a number below the range changes nothing.
group_xor_outside :
    (f : ℕ → ℕ) (member : ℕ → Bool) (k i n : ℕ)
    → k < i
    → group_xor f (λ j. member j && not (j == k)) i n ≡ group_xor f member i n
group_xor_outside f member k i zero p = refl
group_xor_outside f member k i (suc n) p =
    ground (arith, group_xor_outside f member k (i + 1) n (omega arith))

-- One member is the XOR of the whole group and of its other members.
pub group_xor_rebuild :
    (f : ℕ → ℕ) (member : ℕ → Bool) (k i n : ℕ)
    → member k ≡ true
    → i ≤ k
    → k < i + n
    → bit_xor (group_xor f member i n) (group_xor f (λ j. member j && not (j == k)) i n) ≡ f k
group_xor_rebuild f member k i zero m p q = absurd (omega arith)
group_xor_rebuild f member k i (suc n) m p q = elim (Bool-cases (i == k)) [
  | inl here ↦ ground (
    arith,
    group_xor_outside f member k (i + 1) n,
    bit_xor_undo (f i) (group_xor f member (i + 1) n),
  )
  | inr later ↦ ground (
    arith,
    group_xor_rebuild f member k (i + 1) n m,
    bit_xor_cancel (f i) (group_xor f member (i + 1) n)
        (group_xor f (λ j. member j && not (j == k)) (i + 1) n),
  )
]

pub length-xor_into : (row bytes : List ℕ) → length (xor_into row bytes) ≡ length row
unfolding xor_into
length-xor_into [] bytes = refl
length-xor_into (a ∷ row) [] = refl
length-xor_into (a ∷ row) (b ∷ bytes) = ap suc (length-xor_into row bytes)

get_or-xor_into :
    (row bytes : List ℕ) (b : ℕ)
    → b < length row
    → get_or (xor_into row bytes) b 0 ≡ bit_xor (get_or row b 0) (get_or bytes b 0)
unfolding xor_into
get_or-xor_into [] bytes b h = absurd (omega arith)
get_or-xor_into (a ∷ row) [] b h = sym (bit_xor-zero _)
get_or-xor_into (a ∷ row) (x ∷ bytes) zero h = refl
get_or-xor_into (a ∷ row) (x ∷ bytes) (suc b) h = get_or-xor_into row bytes b (omega arith)

length-xor_row :
    (rows : List (List ℕ)) (j : ℕ) (bytes : List ℕ) → length (xor_row rows j bytes) ≡ length rows
unfolding xor_row
length-xor_row [] j bytes = refl
length-xor_row (r ∷ rows) zero bytes = refl
length-xor_row (r ∷ rows) (suc j) bytes = ap suc (length-xor_row rows j bytes)

get_or-xor_row :
    (rows : List (List ℕ)) (j k : ℕ) (bytes : List ℕ)
    → k < length rows
    → get_or (xor_row rows j bytes) k []
      ≡ (if k == j then xor_into (get_or rows k []) bytes else get_or rows k [])
unfolding xor_row
get_or-xor_row [] j k bytes h = absurd (omega arith)
get_or-xor_row (r ∷ rows) zero zero bytes h = refl
get_or-xor_row (r ∷ rows) zero (suc k) bytes h = ground arith
get_or-xor_row (r ∷ rows) (suc j) zero bytes h = ground arith
get_or-xor_row (r ∷ rows) (suc j) (suc k) bytes h = ground (arith, get_or-xor_row rows j k bytes)

byte-xor_row :
    (rows : List (List ℕ)) (j k b : ℕ) (bytes : List ℕ)
    → k < length rows
    → b < length (get_or rows k [])
    → get_or (get_or (xor_row rows j bytes) k []) b 0 ≡ (
        if j == k
        then bit_xor (get_or (get_or rows k []) b 0) (get_or bytes b 0)
        else get_or (get_or rows k []) b 0)
byte-xor_row rows j k b bytes hk hb = elim (Bool-cases (k == j)) [
  | inl e ↦
      ground (arith, get_or-xor_row rows j k bytes, get_or-xor_into (get_or rows k []) bytes b)
  | inr e ↦ ground (arith, get_or-xor_row rows j k bytes)
]

length-row-xor_row :
    (rows : List (List ℕ)) (j k : ℕ) (bytes : List ℕ)
    → k < length rows
    → length (get_or (xor_row rows j bytes) k []) ≡ length (get_or rows k [])
length-row-xor_row rows j k bytes hk =
    ground (arith, get_or-xor_row rows j k bytes, length-xor_into (get_or rows k []) bytes)

module _ (monitor_id frame_number : ℕ) (frame : List ℕ) (size count p : ℕ) where
  abbrev rows_after : ℕ → ℕ → List (List ℕ) → List (List ℕ)
  rows_after left i rows = (chunk_loop monitor_id frame_number frame size count p left i rows).1

  pub length-rows_after :
      (left i : ℕ) (rows : List (List ℕ)) → length (rows_after left i rows) ≡ length rows
  unfolding chunk_loop
  length-rows_after zero i rows = refl
  length-rows_after (suc left) i rows =
      length-rows_after left (i + 1)
        (if p == 0 then rows else xor_row rows (i % p) (chunk frame size i))
      ∙ ground (arith, length-xor_row rows (i % p) (chunk frame size i))

  -- Row `j` gathers the chunks of group `j`.
  pub rows_after-group_xor :
      (left i : ℕ) (rows : List (List ℕ)) (j b : ℕ)
      → 0 < p
      → j < length rows
      → b < length (get_or rows j [])
      → get_or (get_or (rows_after left i rows) j []) b 0
        ≡ bit_xor
            (get_or (get_or rows j []) b 0)
            (group_xor (λ k. get_or (chunk frame size k) b 0) (λ k. k % p == j) i left)
  unfolding chunk_loop
  rows_after-group_xor zero i rows j b pos hj hb = sym (bit_xor-zero _)
  rows_after-group_xor (suc left) i rows j b pos hj hb =
      let bytes : List ℕ = chunk frame size i in
      let rest : ℕ =
        group_xor (λ k. get_or (chunk frame size k) b 0) (λ k. k % p == j) (i + 1) left in
      let filled : (p == 0) ≡ false = ground arith in
      let row : ℕ = get_or (get_or rows j []) b 0 in
      let same : length (get_or (xor_row rows (i % p) bytes) j []) ≡ length (get_or rows j []) =
        length-row-xor_row rows (i % p) j bytes hj in
      let ih =
        rows_after-group_xor left (i + 1) (xor_row rows (i % p) bytes) j b pos
          (rw (length-xor_row rows (i % p) bytes) hj) (rw same hb) in
      rw filled (
        ih
        ∙ ground
            (arith, byte-xor_row rows (i % p) j b bytes, bit_xor_assoc row (get_or bytes b 0) rest))
