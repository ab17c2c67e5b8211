-- ===== src/Wire/Frame.antt =====
-- The WebSocket frame around a payload: bot-fleet/main.py `websocket_binary_frame`, and the
-- frame loop of matching-engine/networking/TCPServer.cpp, which reads one frame at a time.
pub mod Bits
pub mod RoundTrip
use Prim.Native.Nat.{bit_and, bit_or, bit_xor}
use trade_plat.Common.{
  ℕ, zero, suc, ◌+◌, ◌*◌, ◌/◌, ◌%◌, ◌<◌, List, [], ◌∷◌, ◌++◌, Option, none, some, Bool, true, false,
  not, ◌||◌, ltb, leb, ◌==◌, if◌then◌else◌, take, drop, length,
}

-- `int.to_bytes(n, "big")`, of a number that fits.
unfoldable pub to_big : ℕ → ℕ → List ℕ
to_big zero x = []
to_big (suc n) x = to_big n (x / 256) ++ (x % 256) ∷ []

-- `(payload_len << 8) | base[2 + i]`, byte by byte.
unfoldable pub shift_in : ℕ → List ℕ → ℕ
shift_in acc [] = acc
shift_in acc (b ∷ bs) = shift_in (acc * 256 + b) bs

abbrev pub from_big : List ℕ → ℕ
from_big = shift_in 0

-- Four bytes of `os.urandom`.
pub record Mask : Type 0 where
  pub m0 : ℕ
  pub m1 : ℕ
  pub m2 : ℕ
  pub m3 : ℕ

abbrev pub mask_bytes : Mask → List ℕ
mask_bytes m = m.m0 ∷ m.m1 ∷ m.m2 ∷ m.m3 ∷ []

-- `mask[i & 3]` comes round to the first byte: the mask of the next byte is the turned mask.
abbrev pub turn : Mask → Mask
turn m = record { m0 = m.m1; m1 = m.m2; m2 = m.m3; m3 = m.m0 }

-- `byte ^ mask[i & 3] for i, byte in enumerate(payload)`, and the same loop in the gateway.
unfoldable pub apply_mask : Mask → List ℕ → List ℕ
apply_mask m [] = []
apply_mask m (b ∷ bs) = bit_xor b m.m0 ∷ apply_mask (turn m) bs

-- The length field, with the mask bit.
unfoldable pub length_field : ℕ → List ℕ
length_field n =
    if ltb n 126
    then bit_or 0x80 n ∷ []
    else (if leb n 0xFFFF then bit_or 0x80 126 ∷ to_big 2 n else bit_or 0x80 127 ∷ to_big 8 n)

unfoldable pub websocket_binary_frame : Mask → List ℕ → List ℕ
websocket_binary_frame mask payload =
    0x82 ∷ length_field (length payload) ++ (mask_bytes mask ++ apply_mask mask payload)

-- What the gateway finds at its read pointer.
pub data Parsed : Type 0 where
  -- not a whole frame yet
  incomplete : Parsed
  -- a frame that is not masked, or is too long: the client is closed
  refused : Parsed
  -- opcode 8: the client is closed
  closing : (rest : List ℕ) → Parsed
  -- opcode 2 or 0: the unmasked payload
  binary : (payload rest : List ℕ) → Parsed
  -- another opcode: the frame is skipped
  skipped : (rest : List ℕ) → Parsed

-- `1 << 20`
abbrev pub max_payload : ℕ
max_payload = 1048576

-- The frame behind its length field.
unfoldable pub parse_body : ℕ → ℕ → List ℕ → Parsed
parse_body opcode n (m0 ∷ m1 ∷ m2 ∷ m3 ∷ bs) =
    let mask : Mask = record { m0 = m0; m1 = m1; m2 = m2; m3 = m3 } in
    if ltb (length bs) n
    then incomplete
    else (if opcode == 0x8
        then closing (drop n bs)
        else (if opcode == 0x2 || opcode == 0x0
            then binary (apply_mask mask (take n bs)) (drop n bs)
            else skipped (drop n bs)))
parse_body opcode n bs = incomplete

-- The checks between the length and the body.
unfoldable pub parse_masked : ℕ → Bool → ℕ → List ℕ → Parsed
parse_masked opcode masked n bs =
    if not masked then refused else (if ltb max_payload n then refused else parse_body opcode n bs)

-- One round of the loop, over the bytes from the read pointer on.
unfoldable pub parse_frame : List ℕ → Parsed
parse_frame (b0 ∷ b1 ∷ bs) =
    let opcode = bit_and b0 0x0F in
    let masked = not (bit_and b1 0x80 == 0) in
    let n = bit_and b1 0x7F in
    if n == 126
    then (if ltb (length bs) 2
        then incomplete
        else parse_masked opcode masked (from_big (take 2 bs)) (drop 2 bs))
    else (if n == 127
        then (if ltb (length bs) 8
            then incomplete
            else parse_masked opcode masked (from_big (take 8 bs)) (drop 8 bs))
        else parse_masked opcode masked n bs)
parse_frame bs = incomplete
