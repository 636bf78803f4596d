-- ===== src/Protocol/Chunks.antt =====
-- protocol/protocol.h: compute_chunk_count.
use immersive.Base.{ℕ, ◌+◌, ◌-◌, ◌*◌, ◌/◌, ◌≤◌, ◌<◌, arith, u16, u32}
use immersive.Protocol.{max_udp_payload}

-- The sum is a uint32_t, the quotient is cut to a uint16_t.
unfoldable pub compute_chunk_count : ℕ → ℕ
compute_chunk_count frame_size = u16 (u32 (frame_size + max_udp_payload - 1) / max_udp_payload)

-- The largest frame whose chunks a 16-bit count holds.
abbrev pub max_frame_size : ℕ
max_frame_size = 65535 * max_udp_payload

-- The chunks cover the frame, and the last one is not empty.
pub compute_chunk_count_bounds :
    (size : ℕ)
    → size ≤ max_frame_size
    → (size ≤ compute_chunk_count size * 1400) × (compute_chunk_count size * 1400 < size + 1400)
unfolding compute_chunk_count
compute_chunk_count_bounds size h = omega arith
