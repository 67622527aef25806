-- ===== src/Writer/Cql/Tests.antt =====
-- The laws of frames and of queries at concrete bytes.
use scylla_cluster_sync_cxx.Prelude.{
  List, Text, [], arith, codes, drop, inl, length, refl, true, ℕ, ◌++◌, ◌+◌, ◌↔◌, ◌∷◌, ◌≡◌,
}
use scylla_cluster_sync_cxx.Prelude.Int.{negsuc, pos}
use scylla_cluster_sync_cxx.Writer.Cql.Frame.{
  FrameHeader, build_void_result, op_result, parse_header, parse_long_string, parsed, read_i32_be,
  response, to_bytes,
}
use scylla_cluster_sync_cxx.Writer.Cql.Frame.Laws.{
  build_void_result_frame, length_prefix, parse_long_string_encoded, to_bytes-parse_header,
}
use scylla_cluster_sync_cxx.Writer.Cql.Query.{
  ends_token, extract_table_target, is_space, is_write_query, to_upper,
}
use scylla_cluster_sync_cxx.Writer.Cql.Query.Laws.{BeginsAsWrite, is_write_query_iff}
use scylla_cluster_sync_cxx.Writer.Cql.Query.Target.{extract_table_target_named}

abbrev sample_header : FrameHeader
sample_header = record {
  version = 4;
  flags = 0;
  stream_id = negsuc 1;
  opcode = 7;
  body_length = pos 4;
}

abbrev sample_bytes : List ℕ
sample_bytes = 4 ∷ 0 ∷ 255 ∷ 254 ∷ 7 ∷ 0 ∷ 0 ∷ 0 ∷ 4 ∷ []

abbrev one_byte : List ℕ
one_byte = 9 ∷ []

abbrev sample_insert : Text
sample_insert = codes "INSERT INTO ks.t (a) VALUES (1)"

to_bytes-parse_header_example : to_bytes (parse_header sample_bytes) ≡ sample_bytes
to_bytes-parse_header_example = to_bytes-parse_header sample_bytes refl (
  omega arith,
  (
    omega arith,
    (
      omega arith,
      (omega arith, (omega arith, (omega arith, (omega arith, (omega arith, (omega arith, tt)))))),
    ),
  ),
)

parse_long_string_encoded_example :
    parse_long_string
      (one_byte ++ (length_prefix (length (codes "SELECT")) ++ ((codes "SELECT") ++ one_byte)))
      (length one_byte)
    ≡ parsed (codes "SELECT")
parse_long_string_encoded_example =
    parse_long_string_encoded one_byte (codes "SELECT") one_byte (omega arith)

build_void_result_frame_example :
    (parse_header (build_void_result (negsuc 1)) ≡ response op_result (negsuc 1) (pos 4))
    × (length (build_void_result (negsuc 1)) ≡ 9 + 4)
    × (read_i32_be (drop 9 (build_void_result (negsuc 1))) ≡ pos 1)
build_void_result_frame_example = build_void_result_frame (negsuc 1) (omega arith, omega arith)

is_write_query_iff_example : (is_write_query sample_insert ≡ true) ↔ BeginsAsWrite sample_insert
is_write_query_iff_example = is_write_query_iff sample_insert

extract_table_target_named_example : extract_table_target sample_insert ≡ b'k' ∷ (codes "s.t")
unfolding is_space to_upper ends_token
extract_table_target_named_example =
    extract_table_target_named sample_insert b'k' (codes "s.t") (refl, (refl, (refl, (refl, tt))))
      (
        codes "INSERT ",
        codes "INTO",
        codes " ",
        codes " (a) VALUES (1)",
        refl,
        (refl, tt),
        refl,
        inl (refl, refl),
      )
