-- ===== src/Protocol/Wire.antt =====
-- protocol/protocol.h: the bytes of a struct give the struct back.
use immersive.Base.{ℕ, ◌^◌, ◌<◌, ◌≡◌, List, ◌++◌, arith, le32-eq}
use immersive.Protocol.Messages.{ControlHeader, encode_header, decode_header}

-- A header of a byte and a 32-bit length is read back from the front of any stream.
pub decode-encode_header :
    (h : ControlHeader) (rest : List ℕ)
    → h.type_code < 2 ^ 8
    → h.size < 2 ^ 32
    → decode_header (encode_header h ++ rest) ≡ h
unfolding decode_header encode_header
decode-encode_header h rest t l = ground (arith, le32-eq h.size)
