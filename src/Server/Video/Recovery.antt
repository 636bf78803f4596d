-- ===== src/Server/Video/Recovery.antt =====
-- host/src/network/server.cpp: what a client can rebuild from the packets of send_video_packet.
use immersive.Base.{
  ℕ, zero, suc, ◌+◌, ◌%◌, ◌≤◌, ◌<◌, ◌≡◌, refl, ap, ◌∙◌, List, [], ◌∷◌, ◌++◌, min, bit_xor, length,
  length-replicate, arith, get_or, ◌==◌, Bool, not, ◌&&◌, replicate, ltb, leb, take, concat, map,
  take-length-append,
}
use native.Mathlib.Nat.{mod-lt, div-add-mod}
use mathlib.Core.Path.{subst, fun_ext}
use immersive.Base.Xor.{bit_xor_comm, bit_xor-zero}
use immersive.Protocol.Chunks.{compute_chunk_count, compute_chunk_count_bounds, max_frame_size}
use immersive.Server.Video.{
  chunk, chunk_loop, parity_loop, Packet, frame_packets, parity_count_of, parity_len_of,
}
use immersive.Server.Video.Chunks.{payloads_from}
use immersive.Server.Video.Parity.{group_xor, group_xor_rebuild, rows_after-group_xor}

-- The payload of the packet at an index, empty out of range.
abbrev pub payload_at : List Packet → ℕ → List ℕ
payload_at [] i = []
payload_at (p ∷ ps) zero = p.payload
payload_at (p ∷ ps) (suc i) = payload_at ps i

payload_at-append_left :
    (ps qs : List Packet) (i : ℕ) → i < length ps → payload_at (ps ++ qs) i ≡ payload_at ps i
payload_at-append_left [] qs i h = absurd (omega arith)
payload_at-append_left (p ∷ ps) qs zero h = refl
payload_at-append_left (p ∷ ps) qs (suc i) h = payload_at-append_left ps qs i (omega arith)

payload_at-append_right :
    (ps qs : List Packet) (i : ℕ) → payload_at (ps ++ qs) (length ps + i) ≡ payload_at qs i
payload_at-append_right [] qs i = ap (payload_at qs) (omega arith)
payload_at-append_right (p ∷ ps) qs i =
    rw (let e : suc (length ps) + i ≡ suc (length ps + i) = omega arith in e)
      (payload_at-append_right ps qs i)

group_xor_ext :
    (f g : ℕ → ℕ) (member : ℕ → Bool) (i n : ℕ)
    → ((k : ℕ) → i ≤ k → k < i + n → f k ≡ g k)
    → group_xor f member i n ≡ group_xor g member i n
group_xor_ext f g member i zero h = refl
group_xor_ext f g member i (suc n) h = ground (
  arith,
  h i (omega arith) (omega arith),
  group_xor_ext f g member (i + 1) n (λ k p q. h k (omega arith) (omega arith)),
)

-- A frame with at least one chunk has parity, and the indices of both fit 16 bits.
pub parity_count_of_bounds :
    (n : ℕ) → 0 < n → n < 65535 → (0 < parity_count_of n) × (n + parity_count_of n ≤ 65535)
unfolding parity_count_of
parity_count_of_bounds n p q = ground arith

module _ (m f : ℕ) (frame : List ℕ) (size count p : ℕ) where
  length-chunk_loop :
      (left i : ℕ) (rows : List (List ℕ))
      → length (chunk_loop m f frame size count p left i rows).0 ≡ left
  unfolding chunk_loop
  length-chunk_loop zero i rows = refl
  length-chunk_loop (suc left) i rows = ap suc (length-chunk_loop left (i + 1) _)

  payload_at-chunk_loop :
      (left i k : ℕ) (rows : List (List ℕ))
      → k < left
      → payload_at (chunk_loop m f frame size count p left i rows).0 k ≡ chunk frame size (i + k)
  unfolding chunk_loop
  payload_at-chunk_loop zero i k rows h = absurd (omega arith)
  payload_at-chunk_loop (suc left) i zero rows h = ap (chunk frame size) (omega arith)
  payload_at-chunk_loop (suc left) i (suc k) rows h =
      payload_at-chunk_loop left (i + 1) k _ (omega arith) ∙ ap (chunk frame size) (omega arith)

  payload_at-parity_loop :
      (rows : List (List ℕ)) (j k : ℕ)
      → payload_at (parity_loop m f frame size count p j rows) k ≡ get_or rows k []
  unfolding parity_loop
  payload_at-parity_loop [] j k = refl
  payload_at-parity_loop (r ∷ rows) j zero = refl
  payload_at-parity_loop (r ∷ rows) j (suc k) = payload_at-parity_loop rows (j + 1) k

get_or-replicate {ℓ} : {A : Type ℓ} (n i : ℕ) (a d : A) → i < n → get_or (replicate n a) i d ≡ a
get_or-replicate zero i a d h = absurd (omega arith)
get_or-replicate (suc n) zero a d h = refl
get_or-replicate (suc n) (suc i) a d h = get_or-replicate n i a d (omega arith)

-- Two numbers less than `p` apart with one remainder are equal.
same_group : (p a b : ℕ) → a % p ≡ b % p → a ≤ b → b < a + p → a ≡ b
same_group p a b e h k = grind (arith, div-add-mod a p, div-add-mod b p)

group_xor_members :
    (f : ℕ → ℕ) (m m' : ℕ → Bool) (i n : ℕ)
    → ((k : ℕ) → m k ≡ m' k)
    → group_xor f m i n ≡ group_xor f m' i n
group_xor_members f m m' i n h = ap (λ t. group_xor f t i n) (fun_ext h)

-- In a window of at most `p` numbers only `k` itself is of the group of `k`.
window_members :
    (p s k i : ℕ)
    → s ≤ k
    → k < s + p
    → ((i % p == k % p) && not (leb s i && ltb i (s + p))) ≡ ((i % p == k % p) && not (i == k))
window_members p s k i a b = ground (arith, same_group p i k, same_group p k i)

module _ (monitor_id frame_number : ℕ) (frame : List ℕ) where
  abbrev pub packets : List Packet
  packets = frame_packets monitor_id frame_number frame (length frame)

  abbrev pub count : ℕ
  count = compute_chunk_count (length frame)

  abbrev pub parity : ℕ
  parity = parity_count_of count

  abbrev zeroed : List (List ℕ)
  zeroed = replicate (parity_count_of count) (replicate (parity_len_of (length frame)) 0)

  abbrev sent : List Packet × List (List ℕ)
  sent =
      chunk_loop monitor_id frame_number frame (length frame) count (parity_count_of count) count 0
        zeroed

  frame_packets-eq :
      packets
      ≡ sent.0
        ++ parity_loop monitor_id frame_number frame
            (length frame)
            count
            (parity_count_of count)
            0
            sent.1
  unfolding frame_packets
  frame_packets-eq = refl

  length-sent : length sent.0 ≡ count
  length-sent =
      length-chunk_loop monitor_id frame_number frame (length frame) count (parity_count_of count)
        count 0 zeroed

  abbrev behind : List Packet
  behind =
      parity_loop monitor_id frame_number frame (length frame) count (parity_count_of count) 0
        sent.1

  take-packets : take count packets ≡ sent.0
  take-packets = rw frame_packets-eq (
      subst (λ n. take n (sent.0 ++ behind) ≡ sent.0) length-sent
        (take-length-append sent.0 behind))

  -- The payloads of the first `count` packets of a frame that a 16-bit count of chunks covers are,
  -- in order, the frame.
  pub frame_packets-reassemble :
      length frame ≤ max_frame_size → concat (map (λ p. p.payload) (take count packets)) ≡ frame
  frame_packets-reassemble fits = rw take-packets (
      payloads_from frame monitor_id frame_number count (parity_count_of count) count 0 zeroed
        (omega (arith, compute_chunk_count_bounds (length frame) fits)))

  payload_at-data : (k : ℕ) → k < count → payload_at packets k ≡ chunk frame (length frame) k
  payload_at-data k h =
      rw (frame_packets-eq, payload_at-append_left sent.0 behind k (omega (arith, length-sent)))
        (payload_at-chunk_loop monitor_id frame_number frame (length frame) count
            (parity_count_of count) count 0 k zeroed h
          ∙ ap (chunk frame (length frame)) (omega arith))

  payload_at-behind : (j : ℕ) → payload_at packets (count + j) ≡ get_or sent.1 j []
  payload_at-behind j =
      rw frame_packets-eq (
        subst (λ n. payload_at (sent.0 ++ behind) (n + j) ≡ payload_at behind j) length-sent
          (payload_at-append_right sent.0 behind j))
      ∙ payload_at-parity_loop monitor_id frame_number frame (length frame) count
          (parity_count_of count) sent.1 0 j

  abbrev is_group : ℕ → ℕ → Bool
  is_group j i = i % parity_count_of count == j

  -- A byte of parity chunk `j` is the XOR of that byte of every chunk of its group.
  byte-parity :
      (j b : ℕ)
      → 0 < parity_count_of count
      → j < parity_count_of count
      → b < parity_len_of (length frame)
      → get_or (payload_at packets (count + j)) b 0
        ≡ group_xor (λ i. get_or (chunk frame (length frame) i) b 0) (is_group j) 0 count
  byte-parity j b pos hj hb =
      let row : get_or zeroed j [] ≡ replicate (parity_len_of (length frame)) 0 =
        get_or-replicate (parity_count_of count) j (replicate (parity_len_of (length frame)) 0) []
          hj in
      let cell : get_or (get_or zeroed j []) b 0 ≡ 0 =
        rw row (get_or-replicate (parity_len_of (length frame)) b 0 0 hb) in
      let start : j < length zeroed = rw length-replicate hj in
      let inside : b < length (get_or zeroed j []) = rw (row, length-replicate) hb in
      let total : ℕ =
        group_xor (λ i. get_or (chunk frame (length frame) i) b 0) (is_group j) 0 count in
      rw payload_at-behind (
        rows_after-group_xor monitor_id frame_number frame (length frame) count
          (parity_count_of count) count 0 zeroed j b pos start inside
        ∙ cc (cell, bit_xor_comm 0 total, bit_xor-zero total))

  -- One lost chunk is the XOR of its parity packet and of the others of its group.
  frame_packets-rebuild :
      (k b : ℕ)
      → count < 65535
      → k < count
      → b < min (length frame) 1400
      → bit_xor (get_or (payload_at packets (count + k % parity)) b 0) (
          group_xor
            (λ i. get_or (payload_at packets i) b 0)
            (λ i. (i % parity == k % parity) && not (i == k))
            0
            count)
        ≡ get_or (payload_at packets k) b 0
  frame_packets-rebuild k b small hk hb =
      let p : ℕ = parity_count_of count in
      let pos : 0 < p = (parity_count_of_bounds count (omega arith) small).0 in
      let g : ℕ → ℕ = λ i. get_or (chunk frame (length frame) i) b 0 in
      let others : ℕ → Bool = λ i. (i % p == k % p) && not (i == k) in
      rw
        (
          byte-parity (k % p) b pos (mod-lt k pos) (unfold parity_len_of in hb),
          group_xor_ext (λ i. get_or (payload_at packets i) b 0) g others 0 count
              (λ i _ h. ap (λ (c : List ℕ). get_or c b 0) (payload_at-data i (omega arith))),
          payload_at-data k hk,
        )
        (group_xor_rebuild g (λ i. i % p == k % p) k 0 count (ground arith) (omega arith)
          (omega arith))

  -- Even when the chunks s, ..., s + parity - 1 of a frame are all lost, each lost chunk `k` is,
  -- byte for byte, the XOR of the parity packet numbered count + k % parity and of the data
  -- packets of its group outside that burst; bytes past the end of a short last chunk read as 0.
  -- The frame has fewer than 65535 chunks.
  pub frame_packets-rebuild_burst :
      (s k b : ℕ)
      → count < 65535
      → k < count
      → s ≤ k
      → k < s + parity
      → b < min (length frame) 1400
      → bit_xor (get_or (payload_at packets (count + k % parity)) b 0) (
          group_xor
            (λ i. get_or (payload_at packets i) b 0)
            (λ i. (i % parity == k % parity) && not (leb s i && ltb i (s + parity)))
            0
            count)
        ≡ get_or (payload_at packets k) b 0
  frame_packets-rebuild_burst s k b small hk low high hb =
      rw
        (group_xor_members (λ i. get_or (payload_at packets i) b 0) _ _ 0 count
          (λ i. window_members parity s k i low high))
        (frame_packets-rebuild k b small hk hb)
