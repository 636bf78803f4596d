-- ===== src/Server/Video/Chunks.antt =====
-- host/src/network/server.cpp: what the data packets of send_video_packet carry.
use immersive.Base.{
  ℕ, zero, suc, ◌+◌, ◌-◌, ◌*◌, ◌%◌, ◌≤◌, ◌≡◌, ap, sym, ◌∙◌, List, [], ◌∷◌, ◌++◌, min, take, drop,
  length, length-take, length-drop, take-append-drop, arith, map, concat, drop_all, drop-drop, ◌==◌,
  if◌then◌else◌,
}
use immersive.Server.Video.{chunk, chunk_loop, xor_row}

take-min {ℓ} : {A : Type ℓ} (m : ℕ) (xs : List A) → take (min m (length xs)) xs ≡ take m xs
take-min zero xs = rw (let e : min 0 (length xs) ≡ 0 = omega arith in e)
take-min (suc m) [] = rw (let e : min (suc m) 0 ≡ 0 = omega arith in e)
take-min (suc m) (x ∷ xs) =
    rw (let e : min (suc m) (suc (length xs)) ≡ suc (min m (length xs)) = omega arith in e)
      (ap (◌∷◌ x) (take-min m xs))

module _ (frame : List ℕ) where
  -- Every chunk but the last has 1400 bytes, and the last has what is left.
  pub length-chunk :
      (i : ℕ) → length (chunk frame (length frame) i) ≡ min 1400 (length frame - i * 1400)
  unfolding chunk
  length-chunk i = omega (
    arith,
    length-take (min 1400 (length frame - i * 1400)) (drop (i * 1400) frame),
    length-drop (i * 1400) frame,
  )

  chunk-eq-take : (i : ℕ) → chunk frame (length frame) i ≡ take 1400 (drop (i * 1400) frame)
  unfolding chunk
  chunk-eq-take i = rw (← length-drop (i * 1400) frame) (take-min 1400 (drop (i * 1400) frame))

  chunk-append-drop :
      (i : ℕ) → chunk frame (length frame) i ++ drop ((i + 1) * 1400) frame ≡ drop (i * 1400) frame
  chunk-append-drop i =
      rw
        (
          chunk-eq-take i,
          let e : (i + 1) * 1400 ≡ i * 1400 + 1400 = omega arith in e,
          ← drop-drop (i * 1400) 1400 frame,
        )
        (take-append-drop 1400 (drop (i * 1400) frame))

  -- The payloads of the data packets from chunk `i` on.
  pub payloads_from :
      (monitor_id frame_number count parity left i : ℕ) (rows : List (List ℕ))
      → length frame ≤ (i + left) * 1400
      → concat (
          map
            (λ p. p.payload)
            (chunk_loop monitor_id frame_number frame (length frame) count parity left i rows).0)
        ≡ drop (i * 1400) frame
  unfolding chunk_loop
  payloads_from m f c p zero i rows h = sym (drop_all (i * 1400) frame (omega arith))
  payloads_from m f c p (suc left) i rows h =
      ap (λ r. chunk frame (length frame) i ++ r)
        (payloads_from m f c p left (i + 1)
          (if p == 0 then rows else xor_row rows (i % p) (chunk frame (length frame) i))
          (omega arith))
      ∙ chunk-append-drop i
