-- ===== src/Base/Words.antt =====
-- The casts to fixed widths, and little-endian bytes as the packed structs lay them out.
use Prim.Native.Nat.{ℕ, zero, suc, ◌+◌, ◌-◌, ◌*◌, ◌/◌, ◌%◌, ◌^◌, ◌<◌}
use mathlib.Core.Path.{◌≡◌}
use mathlib.Core.List.{List, [], ◌∷◌, ◌++◌}
use native.Mathlib.Omega.{arith}
use immersive.Base.Tests.{◌==◌, if◌then◌else◌}
use immersive.Base.Lists.{
  get_or, take, replicate, length, length-append, length-replicate, length-take,
}

abbrev pub u8 : ℕ → ℕ
u8 n = n % 2 ^ 8

abbrev pub u16 : ℕ → ℕ
u16 n = n % 2 ^ 16

abbrev pub u32 : ℕ → ℕ
u32 n = n % 2 ^ 32

abbrev pub u64 : ℕ → ℕ
u64 n = n % 2 ^ 64

-- uint32_t subtraction of values below 2 ^ 32.
abbrev pub sub32 : ℕ → ℕ → ℕ
sub32 a b = (a + 2 ^ 32 - b) % 2 ^ 32

-- The bytes of a field, least significant first.
abbrev pub le8 : ℕ → List ℕ
le8 n = n % 256 ∷ []

abbrev pub le16 : ℕ → List ℕ
le16 n = n % 256 ∷ n / 256 % 256 ∷ []

abbrev pub le32 : ℕ → List ℕ
le32 n = n % 256 ∷ n / 256 % 256 ∷ n / 65536 % 256 ∷ n / 16777216 % 256 ∷ []

-- The field at an offset of a byte array; a byte past the end reads as 0, the value that the
-- zeroed struct behind a short memcpy holds.
abbrev pub u8_at : List ℕ → ℕ → ℕ
u8_at xs i = get_or xs i 0

abbrev pub u16_at : List ℕ → ℕ → ℕ
u16_at xs i = u8_at xs i + 256 * u8_at xs (i + 1)

abbrev pub u32_at : List ℕ → ℕ → ℕ
u32_at xs i = u16_at xs i + 65536 * u16_at xs (i + 2)

abbrev pub le64 : ℕ → List ℕ
le64 n = le32 n ++ le32 (n / 4294967296)

abbrev pub u64_at : List ℕ → ℕ → ℕ
u64_at xs i = u32_at xs i + 4294967296 * u32_at xs (i + 4)

-- A field of `n` bytes.
abbrev pub bytes_at : List ℕ → ℕ → ℕ → List ℕ
bytes_at xs i zero = []
bytes_at xs i (suc n) = u8_at xs i ∷ bytes_at xs (i + 1) n

-- The characters up to the first NUL.
abbrev pub c_string : List ℕ → List ℕ
c_string [] = []
c_string (x ∷ xs) = let rest = c_string xs in if x == 0 then [] else x ∷ rest

-- `strncpy` of a text into a zeroed array of `n + 1` bytes, at most `n` of them.
abbrev pub padded : ℕ → List ℕ → List ℕ
padded n s = let t = take n (c_string s) in t ++ replicate (n + 1 - length t) 0

pub length-padded : (n : ℕ) (s : List ℕ) → length (padded n s) ≡ n + 1
length-padded n s = omega (
  arith,
  length-append (take n (c_string s)) (replicate (n + 1 - length (take n (c_string s))) 0),
  length-replicate {A = ℕ} (n + 1 - length (take n (c_string s))) 0,
  length-take n (c_string s),
)

pub le16-eq : (n : ℕ) → n < 2 ^ 16 → n % 256 + 256 * (n / 256 % 256) ≡ n
le16-eq n h = omega arith

pub le32-eq :
    (n : ℕ)
    → n < 2 ^ 32
    → n % 256 + 256 * (n / 256 % 256) + 65536 * (n / 65536 % 256 + 256 * (n / 16777216 % 256)) ≡ n
le32-eq n h = omega arith
