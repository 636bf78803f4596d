-- ===== src/Base/Time.antt =====
-- Points and spans of the steady clock in nanoseconds, its period on the hosts.
use Prim.Native.Nat.{ℕ, ◌*◌}

abbrev pub ms : ℕ → ℕ
ms n = n * 1000000

abbrev pub secs : ℕ → ℕ
secs n = n * 1000000000
