-- ===== src/Protocol/Greeting.antt =====
-- protocol/protocol.h: a HELLO of any version of the client is read as what it says.
use immersive.Base.{
  ℕ, zero, suc, ◌+◌, ◌*◌, ◌%◌, ◌^◌, ◌<◌, ◌≡◌, refl, ap, ◌∙◌, List, [], ◌∷◌, ◌++◌, append_assoc,
  arith, length, bytes_at, u8_at, u32_at, take, le32, le32-eq,
}
use mathlib.Core.Path.{subst}
use immersive.Protocol.Messages.{Hello, encode_hello, decode_hello}

bytes_at-suc : (x : ℕ) (xs : List ℕ) (i n : ℕ) → bytes_at (x ∷ xs) (suc i) n ≡ bytes_at xs i n
bytes_at-suc x xs i zero = refl
bytes_at-suc x xs i (suc n) =
    let e : suc i + 1 ≡ suc (i + 1) = omega arith in
    rw e (ap (◌∷◌ (u8_at xs i)) (bytes_at-suc x xs (i + 1) n))

bytes_at-append : (xs ys : List ℕ) → bytes_at (xs ++ ys) 0 (length xs) ≡ xs
bytes_at-append [] ys = refl
bytes_at-append (x ∷ xs) ys =
    ap (◌∷◌ x) (bytes_at-suc x (xs ++ ys) 0 (length xs) ∙ bytes_at-append xs ys)

u8_at-append : (xs ys : List ℕ) (k : ℕ) → u8_at (xs ++ ys) (length xs + k) ≡ u8_at ys k
u8_at-append [] ys k = ap (u8_at ys) (omega arith)
u8_at-append (x ∷ xs) ys k =
    let e : suc (length xs) + k ≡ suc (length xs + k) = omega arith in rw e (u8_at-append xs ys k)

-- What a peer writes behind the name.
decode_hello-tail :
    (version : ℕ) (name tail : List ℕ)
    → length name ≡ 32
    → decode_hello (version ∷ (name ++ tail)) ≡ record {
      protocol_version = version;
      client_name = name;
      flags = u8_at tail 0;
      pin = u32_at tail 1;
    }
unfolding decode_hello
decode_hello-tail version name tail e =
    let names : bytes_at (version ∷ (name ++ tail)) 1 32 ≡ name =
      subst (λ n. bytes_at (version ∷ (name ++ tail)) 1 n ≡ name) e
        (bytes_at-suc version (name ++ tail) 0 (length name) ∙ bytes_at-append name tail) in
    let at : (k : ℕ) → u8_at (name ++ tail) (32 + k) ≡ u8_at tail k =
      λ k. subst (λ n. u8_at (name ++ tail) (n + k) ≡ u8_at tail k) e (u8_at-append name tail k) in
    λ i. record {
      protocol_version = version;
      client_name = names i;
      flags = at 0 i;
      pin = at 1 i + 256 * at 2 i + 65536 * (at 3 i + 256 * at 4 i);
    }

take-append : (xs ys : List ℕ) (n k : ℕ) → length xs ≡ n → take (n + k) (xs ++ ys) ≡ xs ++ take k ys
take-append xs ys n k e =
    subst (λ n. take (n + k) (xs ++ ys) ≡ xs ++ take k ys) e (take-length xs ys k)
  where
    take-length : (xs ys : List ℕ) (k : ℕ) → take (length xs + k) (xs ++ ys) ≡ xs ++ take k ys
    take-length [] ys k = ap (λ n. take n ys) (omega arith)
    take-length (x ∷ xs) ys k =
        let n : suc (length xs) + k ≡ suc (length xs + k) = omega arith in
        rw n (ap (◌∷◌ x) (take-length xs ys k))

-- The server reads from a HELLO what the client wrote, and from an older client's, which ends before
-- the PIN or before the flags, the same without a PIN or without PIN and flags. The name is the 32
-- bytes of its field, and the numbers fit theirs.
pub decode-encode_hello :
    (h : Hello)
    → length h.client_name ≡ 32
    → h.protocol_version < 2 ^ 8
    → h.flags < 2 ^ 8
    → h.pin < 2 ^ 32
    → (decode_hello (encode_hello h) ≡ h)
      × (decode_hello (take 34 (encode_hello h)) ≡ record h { pin = 0 })
      × (decode_hello (take 33 (encode_hello h)) ≡ record h { flags = 0; pin = 0 })
unfolding encode_hello
decode-encode_hello h e version_fits flags_fit pin_fits =
    let name : List ℕ = h.client_name in
    let version : h.protocol_version % 256 ≡ h.protocol_version = omega arith in
    let flags : h.flags % 256 ≡ h.flags = omega arith in
    let tail : List ℕ = (h.flags % 256) ∷ le32 h.pin in
    let written : List ℕ = (h.protocol_version % 256) ∷ (name ++ tail) in
    let shape : encode_hello h ≡ written =
      ap (◌∷◌ (h.protocol_version % 256)) (append_assoc name ((h.flags % 256) ∷ []) (le32 h.pin)) in
    let whole : decode_hello written ≡ h =
      decode_hello-tail (h.protocol_version % 256) name tail e ∙ (λ i. record h {
        protocol_version = version i;
        flags = flags i;
        pin = le32-eq h.pin pin_fits i;
      }) in
    let no_pin : decode_hello (take 34 written) ≡ record h { pin = 0 } =
      ap (λ xs. decode_hello ((h.protocol_version % 256) ∷ xs)) (take-append name tail 32 1 e)
      ∙ decode_hello-tail (h.protocol_version % 256) name (take 1 tail) e
      ∙ (λ i. record h { protocol_version = version i; flags = flags i; pin = 0 }) in
    let no_flags : decode_hello (take 33 written) ≡ record h { flags = 0; pin = 0 } =
      ap (λ xs. decode_hello ((h.protocol_version % 256) ∷ xs)) (take-append name tail 32 0 e)
      ∙ decode_hello-tail (h.protocol_version % 256) name [] e
      ∙ (λ i. record h { protocol_version = version i; flags = 0; pin = 0 }) in
    (
      ap decode_hello shape ∙ whole,
      ap (λ xs. decode_hello (take 34 xs)) shape ∙ no_pin,
      ap (λ xs. decode_hello (take 33 xs)) shape ∙ no_flags,
    )
