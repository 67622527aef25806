-- ===== src/Writer/Cql/Frame.antt =====
-- services/dual-writer/src/cql_server.cpp: frame headers and the binary forms of the protocol.
-- A byte is a number below 256; int16_t and int32_t values are integers.
pub mod Laws
use scylla_cluster_sync_cxx.Prelude.{
  ℕ, ◌+◌, ◌-◌, ◌*◌, ◌/◌, ◌%◌, ◌^◌, ◌<◌, List, [], ◌∷◌, ◌++◌, ltb, if◌then◌else◌, length, get_or,
  take, drop, Text, u64_mod,
}
use scylla_cluster_sync_cxx.Prelude.Int.{ℤ, pos, negsuc}

-- The bits of a signed value of the given modulus 2^w, and the value of such bits.
abbrev pub bits_of : ℕ → ℤ → ℕ
bits_of modulus (pos n) = n % modulus
bits_of modulus (negsuc n) = modulus - 1 - n % modulus

abbrev pub signed : ℕ → ℕ → ℤ
signed half w = if ltb w half then pos w else negsuc (2 * half - w - 1)

abbrev pub cql_version_response : ℕ
cql_version_response = 0x84

pub record FrameHeader : Type 0 where
  pub version : ℕ
  pub flags : ℕ
  pub stream_id : ℤ
  pub opcode : ℕ
  pub body_length : ℤ

-- `(x >> 8k) & 0xFF` of a signed x is byte k of its bits.
unfoldable pub to_bytes : FrameHeader → List ℕ
to_bytes h =
    let stream = bits_of (2 ^ 16) h.stream_id in
    let len = bits_of (2 ^ 32) h.body_length in
    h.version
    ∷ h.flags
    ∷ (stream / 2 ^ 8 % 256)
    ∷ (stream % 256)
    ∷ h.opcode
    ∷ (len / 2 ^ 24 % 256)
    ∷ (len / 2 ^ 16 % 256)
    ∷ (len / 2 ^ 8 % 256)
    ∷ (len % 256)
    ∷ []

unfoldable pub response : ℕ → ℤ → ℤ → FrameHeader
response opcode stream_id body_len = record {
  version = cql_version_response;
  flags = 0;
  stream_id = stream_id;
  opcode = opcode;
  body_length = body_len;
}

-- read_i32_be(p), with `p` the bytes from there on; the shifted bytes do not overlap.
unfoldable pub read_i32_be : List ℕ → ℤ
read_i32_be p =
    signed (2 ^ 31)
      (get_or p 0 0 * 2 ^ 24 + get_or p 1 0 * 2 ^ 16 + get_or p 2 0 * 2 ^ 8 + get_or p 3 0)

unfoldable pub read_i16_be : List ℕ → ℤ
read_i16_be p = signed (2 ^ 15) (get_or p 0 0 * 2 ^ 8 + get_or p 1 0)

unfoldable pub parse_header : List ℕ → FrameHeader
unfolding read_i32_be read_i16_be
parse_header buf = record {
  version = get_or buf 0 0;
  flags = get_or buf 1 0;
  stream_id = read_i16_be (drop 2 buf);
  opcode = get_or buf 4 0;
  body_length = read_i32_be (drop 5 buf);
}

-- A static_cast of a signed value to size_t.
abbrev pub to_size : ℤ → ℕ
to_size = bits_of u64_mod

-- A string, or the std::length_error that the constructor of a string throws for a length above
-- max_size(), which no catch clause handles.
pub data Parsed : Type 0 where
  parsed : Text → Parsed
  length_error : Parsed

unfoldable pub parse_long_string : List ℕ → ℕ → Parsed
unfolding read_i32_be
parse_long_string body offset =
    if ltb (length body) (offset + 4)
    then parsed []
    else (let len = to_size (read_i32_be (drop offset body)) in
        if ltb (length body) ((offset + 4 + len) % u64_mod)
        then parsed []
        else (if ltb len (2 ^ 63)
            then parsed (take len (drop (offset + 4) body))
            else length_error))

abbrev pub op_result : ℕ
op_result = 0x08

unfoldable pub build_void_result : ℤ → List ℕ
unfolding to_bytes response
build_void_result stream_id =
    to_bytes (response op_result stream_id (pos 4)) ++ (0x00 ∷ 0x00 ∷ 0x00 ∷ 0x01 ∷ [])
