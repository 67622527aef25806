-- ===== src/Writer/Cql/Frame/Laws.antt =====
-- Round trips of the frame header, and what the length check of parse_long_string lets through.
use scylla_cluster_sync_cxx.Prelude.{
  ℕ, ◌+◌, ◌-◌, ◌*◌, ◌/◌, ◌%◌, ◌^◌, ◌<◌, ◌≡◌, refl, List, [], ◌∷◌, ◌++◌, ltb, if◌then◌else◌, length,
  drop, arith, take-length_append, drop-length_append, drop_beyond, length-append, All,
}
use scylla_cluster_sync_cxx.Prelude.Int.{ℤ, pos, negsuc, ◌≤ℤ◌}
use scylla_cluster_sync_cxx.Writer.Cql.Frame.{
  FrameHeader, bits_of, signed, to_bytes, response, read_i32_be, parse_header, parsed, length_error,
  parse_long_string, build_void_result, op_result, cql_version_response,
}

-- The values of an int16_t and of an int32_t.
abbrev pub IsI16 : ℤ → Type 0
IsI16 z = (negsuc (2 ^ 15 - 1) ≤ℤ z) × (z ≤ℤ pos (2 ^ 15 - 1))

abbrev pub IsI32 : ℤ → Type 0
IsI32 z = (negsuc (2 ^ 31 - 1) ≤ℤ z) × (z ≤ℤ pos (2 ^ 31 - 1))

i16_roundtrip :
    (z : ℤ)
    → IsI16 z
    → signed (2 ^ 15) (bits_of (2 ^ 16) z / 2 ^ 8 % 256 * 2 ^ 8 + bits_of (2 ^ 16) z % 256) ≡ z
i16_roundtrip (pos n) h = ground arith
i16_roundtrip (negsuc n) h = ground arith

i32_roundtrip :
    (z : ℤ)
    → IsI32 z
    → signed (2 ^ 31) (
        bits_of (2 ^ 32) z / 2 ^ 24 % 256 * 2 ^ 24
        + bits_of (2 ^ 32) z / 2 ^ 16 % 256 * 2 ^ 16
        + bits_of (2 ^ 32) z / 2 ^ 8 % 256 * 2 ^ 8
        + bits_of (2 ^ 32) z % 256)
      ≡ z
i32_roundtrip (pos n) h = ground arith
i32_roundtrip (negsuc n) h = ground arith

-- A header that is written and read again is the same header, for every int16_t stream and every
-- int32_t length, the negative ones included.
pub parse_header-to_bytes :
    (h : FrameHeader) → IsI16 h.stream_id → IsI32 h.body_length → parse_header (to_bytes h) ≡ h
unfolding parse_header to_bytes
parse_header-to_bytes h stream len =
    let s = i16_roundtrip h.stream_id stream in
    let l = i32_roundtrip h.body_length len in
    λ i. record {
      version = h.version;
      flags = h.flags;
      stream_id = s i;
      opcode = h.opcode;
      body_length = l i;
    }

bits16_signed : (w : ℕ) → w < 2 ^ 16 → bits_of (2 ^ 16) (signed (2 ^ 15) w) ≡ w
bits16_signed w h = ground arith

bits32_signed : (w : ℕ) → w < 2 ^ 32 → bits_of (2 ^ 32) (signed (2 ^ 31) w) ≡ w
bits32_signed w h = ground arith

abbrev pub IsByte : ℕ → Type 0
IsByte b = b < 256

-- Nine bytes that are read as a header are written as the same nine bytes: what the proxy forwards
-- to the source is what the client sent, byte for byte.
pub to_bytes-parse_header :
    (buf : List ℕ) → length buf ≡ 9 → All IsByte buf → to_bytes (parse_header buf) ≡ buf
unfolding parse_header to_bytes
to_bytes-parse_header (a ∷ b ∷ c ∷ d ∷ e ∷ f ∷ g ∷ h ∷ i ∷ []) size bytes =
    let stream = bits16_signed (c * 2 ^ 8 + d) (omega arith) in
    let len = bits32_signed (f * 2 ^ 24 + g * 2 ^ 16 + h * 2 ^ 8 + i) (omega arith) in
    rw (stream, len) (ground arith)
to_bytes-parse_header _ size bytes = absurd (omega arith)

-- A [long string] of the protocol: a 4-byte length, then the bytes.
abbrev pub length_prefix : ℕ → List ℕ
length_prefix n = (n / 2 ^ 24 % 256) ∷ (n / 2 ^ 16 % 256) ∷ (n / 2 ^ 8 % 256) ∷ (n % 256) ∷ []

read_prefix :
    (z : ℤ) (rest : List ℕ) → IsI32 z → read_i32_be (length_prefix (bits_of (2 ^ 32) z) ++ rest) ≡ z
unfolding read_i32_be
read_prefix z rest h = i32_roundtrip z h

-- A string that is encoded with its length is parsed back, at any offset and whatever follows.
pub parse_long_string_encoded :
    (front text rest : List ℕ)
    → length front + length text + length rest < 2 ^ 31
    → parse_long_string (front ++ (length_prefix (length text) ++ (text ++ rest))) (length front)
      ≡ parsed text
unfolding parse_long_string
parse_long_string_encoded front text rest h =
    let n = length text in
    let tail = length_prefix n ++ (text ++ rest) in
    let body = front ++ tail in
    let size = length-append front tail in
    let inner = length-append text rest in
    let at_prefix = drop-length_append front tail in
    let at_text = drop_beyond front tail 4 in
    let read = read_prefix (pos n) (text ++ rest) (omega arith) in
    let small : n % 2 ^ 32 ≡ n = omega arith in
    let here : read_i32_be tail ≡ pos n = rw small at read in
    rw (at_prefix, here, at_text) (ground (arith, take-length_append text rest))

-- The check of the length lets some negative lengths through: the sum wraps around. Behind a prefix
-- of -1 to -4 at the start of a body, the string constructor throws a length_error; any other
-- negative length is refused, and gives the empty string.
pub parse_long_string_negative :
    (n : ℕ) (rest : List ℕ)
    → n < 2 ^ 31
    → length rest < 2 ^ 31
    → parse_long_string (length_prefix (bits_of (2 ^ 32) (negsuc n)) ++ rest) 0
      ≡ (if ltb n 4 then length_error else parsed [])
unfolding parse_long_string
parse_long_string_negative n rest bound size =
    let read = read_prefix (negsuc n) rest (omega arith) in rw read (ground arith)

-- The answer to an intercepted write is a well-formed RESULT frame on the stream of the request: its
-- header reads back with the length of its body, and the body is the kind VOID.
pub build_void_result_frame :
    (stream : ℤ)
    → IsI16 stream
    → (parse_header (build_void_result stream) ≡ response op_result stream (pos 4))
      × (length (build_void_result stream) ≡ 9 + 4)
      × (read_i32_be (drop 9 (build_void_result stream)) ≡ pos 1)
unfolding build_void_result parse_header to_bytes
build_void_result_frame stream h =
    let s = i16_roundtrip stream h in
    (
      λ i. record {
        version = cql_version_response;
        flags = 0;
        stream_id = s i;
        opcode = op_result;
        body_length = pos 4;
      },
      refl,
      refl,
    )
